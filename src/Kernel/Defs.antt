-- ===== src/Kernel/Defs.antt =====
-- The descriptor calls as a parameter, and their documented behaviour as laws.
use linux_programming.Base.{ℕ, ◌≡◌, refl, ◌≢◌, ◌⊎◌, inl, inr, Option, none, some, List}
use linux_programming.Cstr.{Bytes}

-- What a call returns: a value, or -1 with errno set.
pub data Reply {ℓ} (A : Type ℓ) : Type ℓ where
  ok : A → Reply A
  fail : ℕ → Reply A

-- The flags of the two calls of `open`: O_RDONLY, and O_WRONLY | O_CREAT | O_TRUNC.
pub data Mode : Type 0 where
  reads writes : Mode

pub record Kernel : Type 1 where
  -- open file descriptions, and the pipes among them
  pub File : Type 0
  pub Pipe : Type 0
  pub read_end : Pipe → File
  pub write_end : Pipe → File
  -- the descriptor table of one process
  pub Table : Type 0
  pub at : Table → ℕ → Option File
  pub open_file : Table → Option Bytes → Mode → Reply (ℕ × Table)
  pub close : Table → ℕ → Reply Table
  pub dup2 : Table → ℕ → ℕ → Reply Table
  pub pipe : Table → Reply (ℕ × ℕ × Table)
  pub fork : Table → Reply (Unit {0})
  -- errno if the program cannot be run
  pub execvp : Table → List Bytes → Option ℕ

-- A descriptor that `open_file` or `pipe` hands out was not in use.
pub record Opened (k : Kernel) (t t' : k.Table) (fd : ℕ) (f : k.File) : Type 0 where
  pub was_free : k.at t fd ≡ none
  pub now : k.at t' fd ≡ some f
  pub kept : (d : ℕ) → d ≢ fd → k.at t' d ≡ k.at t d

pub record Piped (k : Kernel) (t t' : k.Table) (r w : ℕ) (p : k.Pipe) : Type 0 where
  pub apart : r ≢ w
  pub r_free : k.at t r ≡ none
  pub w_free : k.at t w ≡ none
  pub r_now : k.at t' r ≡ some (k.read_end p)
  pub w_now : k.at t' w ≡ some (k.write_end p)
  pub kept : (d : ℕ) → d ≢ r → d ≢ w → k.at t' d ≡ k.at t d

-- `close` of an open descriptor frees it, `dup2` of one makes the second descriptor refer to the
-- same file; either leaves the others alone. What is handed out was free.
pub record Laws (k : Kernel) : Type 0 where
  pub close_open :
      (t : k.Table) (c : ℕ) {f : k.File}
      → k.at t c ≡ some f
      → (t' : k.Table) × (k.close t c ≡ ok t')
        × (k.at t' c ≡ none)
        × ((d : ℕ) → d ≢ c → k.at t' d ≡ k.at t d)
  pub dup2_open :
      (t : k.Table) (a b : ℕ) {f : k.File}
      → k.at t a ≡ some f
      → (t' : k.Table) × (k.dup2 t a b ≡ ok t')
        × (k.at t' b ≡ some f)
        × ((d : ℕ) → d ≢ b → k.at t' d ≡ k.at t d)
  pub open_new :
      (t : k.Table) (name : Option Bytes) (m : Mode) (fd : ℕ) (t' : k.Table)
      → k.open_file t name m ≡ ok (fd, t')
      → (f : k.File) × Opened k t t' fd f
  pub pipe_new :
      (t : k.Table) (r w : ℕ) (t' : k.Table)
      → k.pipe t ≡ ok (r, w, t')
      → (p : k.Pipe) × Piped k t t' r w p

-- The table after a call whose result the program does not look at.
abbrev pub after : (k : Kernel) → k.Table → Reply k.Table → k.Table
after k t (ok t') = t'
after k t (fail e) = t

-- `close(drop); dup2(keep, std); close(keep);` with the results ignored.
unfoldable pub rewire : (k : Kernel) → k.Table → ℕ → ℕ → ℕ → k.Table
rewire k t drop keep std =
    let t1 : k.Table = after k t (k.close t drop) in
    let t2 : k.Table = after k t1 (k.dup2 t1 keep std) in after k t2 (k.close t2 keep)

pub Reply-cases {ℓ} : {A : Type ℓ} (r : Reply A) → ((e : ℕ) × (r ≡ fail e)) ⊎ ((a : A) × (r ≡ ok a))
Reply-cases (ok a) = inr (a, refl)
Reply-cases (fail e) = inl (e, refl)
