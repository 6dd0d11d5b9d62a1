-- ===== src/Lib.antt =====
-- Programs of a system programming course: a shell (homework/hw5/5-2), a dictionary with its
-- servers (homework/hw5/5-3, homework/hw11), a stack in shared memory (quiz/quiz3), a producer with
-- signalled consumers (homework/hw10), servers on message queues (homework/hw8/46-2,
-- homework/hw9/52-3), a tail (homework/hw2/1), a filter through two pipes and a popen
-- (homework/hw6), programs that copy files (homework/hw1, homework/hw9/49-1), programs that list
-- processes (homework/hw4), a server that polls a FIFO (homework/hw8/44-7), a directory watcher
-- (homework/hw12), signal functions (homework/hw7/7-2), exercises (homework/hw5/5-1), quizzes
-- (quiz/quiz4, quiz/quiz5) and an earlier shell (homework/hw3/3-1). Each program is a tree of
-- modules of its own over the shared ones.
--
-- Base: the names of the libraries that all modules use, lists measured by native numbers, Boolean
-- tests. Cstr: the functions of <string.h> and <stdio.h> that the programs call, on strings as
-- lists of bytes without their NUL and on arrays as lists of their length. A write past the end of
-- an array is `none`. Kernel: the calls on descriptors (open, close, dup2, pipe, fork, execvp) as a
-- record of operations, with what the manual pages say of them as laws; Kernel/Simulated is one
-- that has them.
--
-- Shell: homework/hw5/5-2. Shell/Parse is parse.c (`parse`, `free_argv`), Shell/Argv
-- is_background.c and pipe_present.c, Shell/Redirect redirect_in.c and redirect_out.c,
-- Shell/Pipeline pipe_command.c (`pipe_and_exec`), Shell/Run run_command.c, Shell/Builtin
-- builtin.c, and Shell/Session the loop of shell.c, which reads a line with `fgets`, cuts it with
-- `parse`, and runs a built-in command or a child. The child's redirections come first, then the
-- pipeline.
--
-- Dict: Dict/Record is dict.h. Dict/Convert is homework/hw5/5-3/convert.c, which writes the file of
-- records that Dict/Linear (homework/hw5/5-3/lookup1.c) and Dict/Sorted
-- (homework/hw11/11-1/lookup5.c) search. Dict/Remote has the lookups that ask a server
-- (homework/hw11/11-1/lookup7.c, 11-2/lookup8.c, 11-3/lookup9.c), and Dict/Remote/Servers the
-- servers (usock_server.c, isock_server.c, udp_server.c), which answer from one of the local
-- lookups. Dict/Look is homework/hw11/11-1/main.c over any lookup, with Dict/Look/Answers as the
-- interface between them; Dict/Endless is homework/hw5/5-3/main.c, and Dict/Endless/Rounds has it
-- with lookup1.c. Static variables are a state that each call takes and gives back. What `bsearch`
-- gives is a parameter with what its manual says of sorted arrays.
--
-- Stack: quiz/quiz3 (stack.h, stack.c, process.c); Stack/Process has `main` of process.c, with
-- `atoi`, the pids and the results of `rand()` as parameters, and Stack/Threads `push` and `pop` of
-- stack.c as steps of many processes, with the mutex and the condition. Batch:
-- homework/hw10/program.c, with the consumers that run their handler for a batch as a parameter,
-- and without the count of what they have printed; Batch/Race has that count, the signals and the
-- handlers as steps of the producer and its consumers side by side. Queue: homework/hw8/46-2
-- (server.c, client.c) and homework/hw9/52-3 (server.c, and client.c in Queue/Posix), with `atoi`
-- and the addition of `int` as parameters. Tail: homework/hw2/1/tail.c, with its options in
-- Tail/Options, where `atoi` and `getopt` are parameters. Upper: homework/hw6/6-1/toUpper.c, whose
-- pipes carry the buffer whole. Popen: homework/hw6/6-2/popen.c over the calls of Kernel. Copy:
-- homework/hw1/1-2/cp.c, homework/hw9/49-1/cp.c (`cp_mapped`) and homework/hw1/1-1/tee.c; a source
-- is what its reads give, one after the other, and how much a write takes is a parameter.
-- ProcessTree: homework/hw4/4-2/getTree.c, with the nodes as a list in the order of `tmpLink` and a
-- pointer as an index of it; ProcessTree/Print has `printProcessTree`. Directory:
-- homework/hw12/main.c; Directory/Events has the records of inotify(7) that it reads, byte by byte.
-- Listings: homework/hw4/4-3/getAllProcess.c and homework/hw4/4-1/userProcess.c. Nonblocking:
-- homework/hw8/44-7, as a sequence of clients and rounds of the server. Transfer:
-- quiz/quiz4/quiz4.c, with each call of the two threads as a step. Coprocess: quiz/quiz5;
-- Coprocess/Pipes has the descriptors of the two processes over the calls of Kernel. Signals:
-- homework/hw7/7-2/systemV_signals.c over the signal calls of POSIX as a record with laws.
-- Exercises: printdir.c, mycat.c and pipe_ls.c of homework/hw5/5-1. EarlierShell: homework/hw3/3-1,
-- with the array of `parse` from Shell.
--
-- Fuel. A loop that reads its input has one round for each byte of it and one more (`parse`,
-- `session`, `convert`, `scan` and the loop of Dict/Look); `pipe_and_exec` has one round more than
-- the command line has strings, `pwd` one for each size of its buffer from 256 to 2^63, behind
-- which it is taken not to end and the shell gives no result, and the producer of Batch one round
-- more than there are messages. The theorems on what a program returns have this fuel. The loop of
-- Directory has one round for each byte that was read, the walk along siblings in ProcessTree one
-- for each node. `printProcessTree` has fuel for each layer and for each pair of a parent and a
-- node. The loop of printdir.c has one round for each byte of the directory and one more. Numbers
-- are natural, and counts of type `int` are taken to stay in its range; where the code counts down
-- or subtracts, the definitions write out what it does at 0.
--
-- Not modelled: what is written to standard error, prompts (but for EarlierShell), failures of
-- allocation (the code checks none in the shell), signals other than those of Batch and Signals,
-- and the timing of processes beyond the order of their calls. The copy of the book's programs in
-- tlpi-book, the copies of its library in homework/hw7 and homework/hw8/44-6 and the course's
-- templates belong to other projects. The other homework and quiz programs are not modelled.
pub mod Base
pub mod Cstr
pub mod Kernel
pub mod Shell
pub mod Dict
pub mod Stack
pub mod Batch
pub mod Queue
pub mod Tail
pub mod Upper
pub mod Coprocess
pub mod Copy
pub mod Directory
pub mod EarlierShell
pub mod Exercises
pub mod Listings
pub mod Nonblocking
pub mod Popen
pub mod ProcessTree
pub mod Signals
pub mod Transfer
