-- ===== src/Shell/Builtin/Pwd.antt =====
-- The growing buffer of `pwd`.
use linux_programming.Base.{
  ℕ, zero, suc, ◌*◌, ◌^◌, ◌<◌, ◌≤◌, ◌≡◌, ◌≢◌, refl, ap, ◌∙◌, ◌⊎◌, inl, inr, true, false, List,
  Option, none, some, ◌++◌, ◌==◌, arith, length, Bool-cases, ==→eq,
}
use native.Mathlib.Decide.{dec_lt}
use native.Mathlib.Nat.{pow-suc}
use linux_programming.Cstr.{Bytes, codes}
use linux_programming.Kernel.Defs.{Reply, ok, fail}
use linux_programming.Shell.Builtin.{
  Builtin, bi_builtin, bi_echo, bi_quit, bi_cd, bi_pwd, bi_id, bi_hostname, Env, Effect, prints,
  erange, pwd_loop, do_pwd, run_builtin, do_builtin, undefined,
}

-- What the manual page says of `getcwd` in the directory `dir`: it needs room for the path and
-- its NUL, and says ERANGE where there is not enough.
pub record Getcwd (env : Env) (dir : Bytes) : Type 0 where
  pub fits : (size : ℕ) → length dir < size → env.getcwd size ≡ ok dir
  pub too_long : (size : ℕ) → size ≤ length dir → env.getcwd size ≡ fail erange
  pub allocates : (size : ℕ) → env.malloc size ≡ true

pwd_loop-prints :
    (env : Env) (dir : Bytes)
    → Getcwd env dir
    → (fuel size : ℕ) → length dir < size * 2 ^ fuel
    → pwd_loop (suc fuel) env size ≡ some (prints (dir ++ codes "\n"))
unfolding pwd_loop
pwd_loop-prints env dir g zero size h =
    rw (g.allocates size, pwd_loop) (rw (g.fits size (omega arith)) refl)
pwd_loop-prints env dir g (suc fuel) size h = elim (dec_lt (length dir) size) [
  | yes fits ↦ rw (g.allocates size, pwd_loop) (rw (g.fits size fits) refl)
  | no long ↦
      rw (g.allocates size, pwd_loop)
        (rw (g.too_long size (omega arith)) (
          pwd_loop-prints env dir g fuel (size * 2)
            (omega (arith, ap (λ (x : ℕ). size * x) (pow-suc 2 fuel)))))
]

-- Where `malloc` succeeds and `getcwd` behaves as its manual page says, `pwd` prints the working
-- directory, whatever its length below 2^63: the loop ends when the buffer has grown to fit it.
pub do_pwd-prints :
    (env : Env) (dir : Bytes)
    → Getcwd env dir
    → length dir < 2 ^ 63
    → do_pwd env ≡ some (prints (dir ++ codes "\n"))
unfolding do_pwd
do_pwd-prints env dir g h = pwd_loop-prints env dir g 55 256 h

-- For one of the sizes 256, 512 and so on below 2^64 there is no memory, or `getcwd` does not say
-- ERANGE.
abbrev pub Stops : Env → ℕ → Type 0
Stops env size = (env.malloc size ≡ false) ⊎ (env.getcwd size ≢ fail erange)

abbrev pub PwdEnds : Env → Type 0
PwdEnds env = (k : ℕ) × (k < 56) × Stops env (256 * 2 ^ k)

abbrev pub Yields : Option Effect → Type 0
Yields r = (e : Effect) × (r ≡ some e)

Reply-cases : (r : Reply Bytes) → ((dir : Bytes) × (r ≡ ok dir)) ⊎ ((e : ℕ) × (r ≡ fail e))
Reply-cases (ok dir) = inl (dir, refl)
Reply-cases (fail e) = inr (e, refl)

-- Where this size is not the one, a larger one is.
later_size :
    (env : Env) (size k : ℕ)
    → Stops env (size * 2 ^ k)
    → env.malloc size ≡ true
    → env.getcwd size ≡ fail erange
    → (j : ℕ) × (k ≡ suc j) × Stops env (size * 2 * 2 ^ j)
later_size env size zero (inl m) t g =
    let same : size * 2 ^ 0 ≡ size = omega arith in absurd (cc (m, t, ap env.malloc same))
later_size env size zero (inr n) t g = absurd (n (ap env.getcwd (omega arith) ∙ g))
later_size env size (suc k) stops t g =
    let same : size * 2 ^ suc k ≡ size * 2 * 2 ^ k =
      omega (arith, ap (λ (x : ℕ). size * x) (pow-suc 2 k)) in
    (k, refl, rw same at stops)

pwd_loop-Yields :
    (env : Env) (fuel k size : ℕ)
    → k < fuel
    → Stops env (size * 2 ^ k)
    → Yields (pwd_loop fuel env size)
unfolding pwd_loop
pwd_loop-Yields env zero k size h stops = absurd (omega arith)
pwd_loop-Yields env (suc fuel) k size h stops = elim (Bool-cases (env.malloc size)) [
  | inr m ↦ rw (m, pwd_loop) (_, refl)
  | inl m ↦ elim (Reply-cases (env.getcwd size)) [
    | inl (dir, g) ↦ rw (m, pwd_loop) (rw g (_, refl))
    | inr (e, g) ↦ elim (Bool-cases (e == erange)) [
      | inr other ↦ rw (m, pwd_loop) (rw g (rw other (_, refl)))
      | inl same ↦
          let full = g ∙ ap fail (==→eq e erange same) in
          let (j, k_suc, stops') = later_size env size k stops m full in
          let more = pwd_loop-Yields env fuel j (size * 2) (omega (arith, h, k_suc)) stops' in
          rw (m, pwd_loop) (rw g (rw same more))
    ]
  ]
]

run_builtin-Yields :
    (env : Env) → PwdEnds env → (b : Builtin) (argv : List Bytes) → Yields (run_builtin env b argv)
unfolding run_builtin do_pwd
run_builtin-Yields env h bi_builtin argv = (_, refl)
run_builtin-Yields env h bi_echo argv = (_, refl)
run_builtin-Yields env h bi_quit argv = (_, refl)
run_builtin-Yields env h bi_cd argv = (_, refl)
run_builtin-Yields env h bi_pwd argv = pwd_loop-Yields env 56 h.0 256 h.1 h.2
run_builtin-Yields env h bi_id argv = (_, refl)
run_builtin-Yields env h bi_hostname argv = (_, refl)

-- Then every command of the table comes to an end.
pub do_builtin-Yields :
    (env : Env)
    → PwdEnds env
    → (this : Option Builtin) (argv : List Bytes) → Yields (do_builtin env this argv).1
unfolding do_builtin
do_builtin-Yields env h none argv = (undefined, refl)
do_builtin-Yields env h (some b) argv = run_builtin-Yields env h b argv
