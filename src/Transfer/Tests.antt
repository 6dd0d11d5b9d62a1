-- ===== src/Transfer/Tests.antt =====
-- A run of the two threads, and one on a semaphore that an earlier run has left behind.
use linux_programming.Base.{◌≡◌, ◌≤◌, ◌⊎◌, refl, [], none, some, true, arith}
use linux_programming.Cstr.{Bytes, codes}
use linux_programming.Transfer.{
  Shared, Reach, init, start, next, read, count, post, wait, write, done, waiting, finished,
}
use linux_programming.Transfer.Order.{Handed, Reach-sent}

abbrev hello : Bytes
hello = codes "hello"

-- The writer takes three of the bytes.
abbrev end_state : Shared
end_state = record {
  cnt = 5;
  buf = hello;
  sem = 0;
  reader = done;
  writer = finished;
  output = some (codes "hel");
  running = true;
}

end-Reach : Reach hello (init 0 []) end_state
end-Reach =
    next
      (next (next (next (next start (read refl refl)) (count 5 refl refl)) (post refl refl))
        (wait 0 refl refl refl))
      (write 3 refl refl (omega arith))

Reach-sent_example :
    (((finished ≡ waiting) × (some (codes "hel") ≡ none)) ⊎ Handed hello end_state) × (0 ≤ 1)
Reach-sent_example = Reach-sent hello [] end_state end-Reach

-- With a semaphore of value 1 the writer need not wait, and writes nothing.
stale_state : (s : Shared) × Reach hello (init 1 []) s × (s.output ≡ some [])
stale_state = (_, next (next start (wait 0 refl refl refl)) (write 0 refl refl (omega arith)), refl)
