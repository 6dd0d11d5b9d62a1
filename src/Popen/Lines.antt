-- ===== src/Popen/Lines.antt =====
-- What `main` of popen.c prints of what the command prints.
use linux_programming.Base.{
  Option, Bool, List, ℕ, zero, suc, ◌<◌, ◌≡◌, ◌≢◌, refl, [], ◌∷◌, ◌++◌, some, arith, length, All,
}
use linux_programming.Cstr.{Bytes, codes, c_str, fgets, take_line}
use linux_programming.Cstr.Arrays.{IsString, c_str_whole}
use linux_programming.Cstr.Streams.{take_line-append, length-take_line-lt}
use linux_programming.Kernel.Defs.{Kernel}
use linux_programming.Popen.{
  build_command, custom_pclose, custom_popen, main, print_lines, status_of,
}

All-split : (P : ℕ → Type 0) (xs ys : Bytes) → All P (xs ++ ys) → All P xs × All P ys
All-split P [] ys h = (tt, h)
All-split P (x ∷ xs) ys h = let k = All-split P xs ys h.1 in ((h.0, k.0), k.1)

-- A command's output with no NUL in it is printed whole, whatever the length of its lines.
print_lines-stream :
    (fuel : ℕ) (stream : Bytes)
    → IsString stream
    → length stream < fuel
    → print_lines fuel stream ≡ some stream
unfolding print_lines
print_lines-stream zero stream h f = absurd (omega arith)
print_lines-stream (suc fuel) [] h f = unfold fgets in refl
print_lines-stream (suc fuel) (c ∷ cs) h f =
    let whole = take_line-append 255 (c ∷ cs) in
    let (first, rest) =
      All-split (λ x. x ≢ 0) (take_line 255 (c ∷ cs)).0 (take_line 255 (c ∷ cs)).1 (rw whole h) in
    let ih =
      print_lines-stream fuel (take_line 255 (c ∷ cs)).1 rest
        (omega (arith, length-take_line-lt 254 c cs)) in
    rw (print_lines, ih) (rw (c_str_whole (take_line 255 (c ∷ cs)).0 first, whole) refl)

main_stream :
    (k : Kernel) (t : k.Table) (array a : Bytes) (args : List Bytes) (output command : Bytes)
    (fd : ℕ) (closes : Bool) (waited : Option ℕ) (printed : Bytes)
    → build_command array a args ≡ some command
    → (custom_popen k t (c_str command) (codes "r")).stream ≡ some fd
    → print_lines (suc (length output)) output ≡ some printed
    → main k t array a args output closes waited
      ≡ some (record { status = status_of (custom_pclose closes waited); printed = printed })
main_stream k t array a args output command fd closes waited printed e f g =
    unfold main in rw (main, e) (rw f (rw g refl))

-- `main` of a command that fits its array and whose stream is there: all that the child prints is
-- printed, and the status is 0 unless the stream cannot be closed or the child not be waited for.
main-prints :
    (k : Kernel) (t : k.Table) (array a : Bytes) (args : List Bytes) (output command : Bytes)
    (fd : ℕ) (closes : Bool) (waited : Option ℕ)
    → build_command array a args ≡ some command
    → (custom_popen k t (c_str command) (codes "r")).stream ≡ some fd
    → IsString output
    → main k t array a args output closes waited
      ≡ some (record { status = status_of (custom_pclose closes waited); printed = output })
main-prints k t array a args output command fd closes waited e f h =
    main_stream k t array a args output command fd closes waited output e f
      (print_lines-stream (suc (length output)) output h (omega arith))
