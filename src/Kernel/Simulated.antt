-- ===== src/Kernel/Simulated.antt =====
-- A kernel that meets the laws: tables are lists, new descriptors go to the end, nothing fails but
-- an `open` with no name. The examples run on it.
use linux_programming.Base.{
  ℕ, zero, suc, ◌+◌, ◌≡◌, ◌≢◌, refl, ap, ◌∙◌, List, [], ◌∷◌, Option, none, some, arith, length,
}
use linux_programming.Cstr.{Bytes}
use linux_programming.Kernel.Defs.{Kernel, Laws, Mode, Reply, ok, fail, Opened, Piped}

pub data SimFile : Type 0 where
  terminal : SimFile
  named : Bytes → Mode → SimFile
  reader writer : ℕ → SimFile

abbrev pub SimTable : Type 0
SimTable = List (Option SimFile)

abbrev pub entry : SimTable → ℕ → Option SimFile
entry [] d = none
entry (f ∷ t) zero = f
entry (f ∷ t) (suc d) = entry t d

abbrev pub put : SimTable → ℕ → Option SimFile → SimTable
put [] zero v = v ∷ []
put [] (suc d) v = none ∷ put [] d v
put (f ∷ t) zero v = v ∷ t
put (f ∷ t) (suc d) v = f ∷ put t d v

entry-put_self : (t : SimTable) (d : ℕ) (v : Option SimFile) → entry (put t d v) d ≡ v
entry-put_self [] zero v = refl
entry-put_self [] (suc d) v = entry-put_self [] d v
entry-put_self (f ∷ t) zero v = refl
entry-put_self (f ∷ t) (suc d) v = entry-put_self t d v

entry-put_ne :
    (t : SimTable) (d c : ℕ) (v : Option SimFile) → c ≢ d → entry (put t d v) c ≡ entry t c
entry-put_ne [] zero zero v n = absurd (n refl)
entry-put_ne [] zero (suc c) v n = refl
entry-put_ne [] (suc d) zero v n = refl
entry-put_ne [] (suc d) (suc c) v n = entry-put_ne [] d c v (λ e. n (ap suc e))
entry-put_ne (f ∷ t) zero zero v n = absurd (n refl)
entry-put_ne (f ∷ t) zero (suc c) v n = refl
entry-put_ne (f ∷ t) (suc d) zero v n = refl
entry-put_ne (f ∷ t) (suc d) (suc c) v n = entry-put_ne t d c v (λ e. n (ap suc e))

entry-length : (t : SimTable) (d : ℕ) → entry t (length t + d) ≡ none
entry-length [] d = refl
entry-length (f ∷ t) d =
    let e : suc (length t) + d ≡ suc (length t + d) = omega arith in rw e (entry-length t d)

entry-end : (t : SimTable) → entry t (length t) ≡ none
entry-end t = ap (entry t) (omega arith) ∙ entry-length t 0

entry-past_end : (t : SimTable) → entry t (length t + 1) ≡ none
entry-past_end t = entry-length t 1

abbrev sim_open : SimTable → Option Bytes → Mode → Reply (ℕ × SimTable)
sim_open t none m = fail 14
sim_open t (some name) m = ok (length t, put t (length t) (some (named name m)))

abbrev sim_dup2 : SimTable → ℕ → Option SimFile → Reply SimTable
sim_dup2 t b none = fail 9
sim_dup2 t b (some f) = ok (put t b (some f))

abbrev with_pipe : SimTable → SimTable
with_pipe t =
    put (put t (length t) (some (reader (length t)))) (length t + 1) (some (writer (length t)))

abbrev pub simulated : Kernel
simulated = record {
  File = SimFile;
  Pipe = ℕ;
  read_end = reader;
  write_end = writer;
  Table = SimTable;
  at = entry;
  open_file = sim_open;
  close = λ t c. ok (put t c none);
  dup2 = λ t a b. sim_dup2 t b (entry t a);
  pipe = λ t. ok (length t, length t + 1, with_pipe t);
  fork = λ t. ok tt;
  execvp = λ t argv. none;
}

open_new :
    (t : SimTable) (name : Option Bytes) (m : Mode) (fd : ℕ) (t' : SimTable)
    → sim_open t name m ≡ ok (fd, t')
    → (f : SimFile) × Opened simulated t t' fd f
open_new t none m fd t' e = absurd (ground arith)
open_new t (some name) m fd t' e =
    let efd : length t ≡ fd = ground arith in
    let et : put t (length t) (some (named name m)) ≡ t' = ground arith in
    rw (← efd, ← et)
      (
        named name m,
        record {
          was_free = entry-end t;
          now = entry-put_self t (length t) _;
          kept = λ d n. entry-put_ne t (length t) d _ n;
        },
      )

pipe_new :
    (t : SimTable) (r w : ℕ) (t' : SimTable)
    → ◌≡◌ {A = Reply (ℕ × ℕ × SimTable)} (ok (length t, length t + 1, with_pipe t)) (ok (r, w, t'))
    → (p : ℕ) × Piped simulated t t' r w p
pipe_new t r w t' e =
    let er : length t ≡ r = ground arith in
    let ew : length t + 1 ≡ w = ground arith in
    let et : with_pipe t ≡ t' = ground arith in
    let one = put t (length t) (some (reader (length t))) in
    rw (← er, ← ew, ← et)
      (
        length t,
        record {
          apart = λ x. absurd (omega arith);
          r_free = entry-end t;
          w_free = entry-past_end t;
          r_now =
              entry-put_ne one (length t + 1) (length t) _ (λ x. absurd (omega arith))
              ∙ entry-put_self t (length t) _;
          w_now = entry-put_self one (length t + 1) _;
          kept =
              λ d nr nw. entry-put_ne one (length t + 1) d _ nw ∙ entry-put_ne t (length t) d _ nr;
        },
      )

dup2_open :
    (t : SimTable) (a b : ℕ) {f : SimFile}
    → entry t a ≡ some f
    → (t' : SimTable) × (sim_dup2 t b (entry t a) ≡ ok t')
      × (entry t' b ≡ some f)
      × ((d : ℕ) → d ≢ b → entry t' d ≡ entry t d)
dup2_open t a b {f} h =
    (put t b (some f), rw h refl, entry-put_self t b (some f), λ d n. entry-put_ne t b d (some f) n)

pub simulated-Laws : Laws simulated
simulated-Laws = record {
  close_open =
      λ t c h. (put t c none, refl, entry-put_self t c none, λ d n. entry-put_ne t c d none n);
  dup2_open = λ t a b h. dup2_open t a b h;
  open_new = open_new;
  pipe_new = pipe_new;
}
