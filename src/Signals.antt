-- ===== src/Signals.antt =====
-- homework/hw7/7-2/systemV_signals.c: the signal functions of System V over those of POSIX, which
-- are a parameter with their documented behaviour as laws.
pub mod Previous
mod Tests
use linux_programming.Base.{
  ℕ, ◌≡◌, ◌≢◌, Bool, true, false, not, ◌&&◌, ◌||◌, Option, none, some, ◌==◌, if◌then◌else◌,
}

-- `struct sigaction`; a handler is its address.
pub record Act : Type 0 where
  pub sa_handler : ℕ
  pub sa_mask : ℕ → Bool
  pub sa_flags : ℕ

abbrev pub sig_ign : ℕ
sig_ign = 1

-- SIG_HOLD
abbrev pub sig_hold : ℕ
sig_hold = 2

pub data How : Type 0 where
  sig_block sig_unblock : How

-- The state of a process is its mask and its actions. `sigaction` is none where it fails.
pub record Calls : Type 1 where
  pub Process : Type 0
  pub mask : Process → ℕ → Bool
  pub action : Process → ℕ → Act
  pub sigprocmask : How → (ℕ → Bool) → Process → Process
  pub sigaction : ℕ → Act → Process → Option Process
  pub sigsuspend : (ℕ → Bool) → Process → Process

pub record Laws (c : Calls) : Type 0 where
  pub mask_block :
      (set : ℕ → Bool) (s : c.Process) (k : ℕ)
      → c.mask (c.sigprocmask sig_block set s) k ≡ c.mask s k || set k
  pub mask_unblock :
      (set : ℕ → Bool) (s : c.Process) (k : ℕ)
      → c.mask (c.sigprocmask sig_unblock set s) k ≡ c.mask s k && not (set k)
  pub action_procmask :
      (how : How) (set : ℕ → Bool) (s : c.Process) (k : ℕ)
      → c.action (c.sigprocmask how set s) k ≡ c.action s k
  pub action_set :
      (n : ℕ) (act : Act) (s t : c.Process) → c.sigaction n act s ≡ some t → c.action t n ≡ act
  pub action_other :
      (n k : ℕ) (act : Act) (s t : c.Process)
      → c.sigaction n act s ≡ some t
      → k ≢ n
      → c.action t k ≡ c.action s k
  pub mask_action :
      (n : ℕ) (act : Act) (s t : c.Process) (k : ℕ)
      → c.sigaction n act s ≡ some t
      → c.mask t k ≡ c.mask s k
  -- the handlers that run leave the mask as they found it
  pub mask_suspend :
      (set : ℕ → Bool) (s : c.Process) (k : ℕ) → c.mask (c.sigsuspend set s) k ≡ c.mask s k

-- `sigemptyset` and `sigaddset`
abbrev pub only : ℕ → ℕ → Bool
only signo k = k == signo

abbrev pub empty : ℕ → Bool
empty k = false

module _ (c : Calls) where
  -- What `oact.sa_handler` holds, none where nothing was stored there, and the process behind it.
  unfoldable pub sigset : ℕ → ℕ → c.Process → Option ℕ × c.Process
  sigset signo func s =
      if func == sig_hold
      then (none, c.sigprocmask sig_block (only signo) s)
      else elim (c.sigaction signo
          (record { sa_handler = func; sa_mask = only signo; sa_flags = 0 }) s) [
            | none ↦ (none, c.sigprocmask sig_unblock (only signo) s)
            | some t ↦
                (some ((c.action s signo).sa_handler), c.sigprocmask sig_unblock (only signo) t)
          ]

  abbrev pub sighold : ℕ → c.Process → c.Process
  sighold signo s = c.sigprocmask sig_block (only signo) s

  abbrev pub sigrelse : ℕ → c.Process → c.Process
  sigrelse signo s = c.sigprocmask sig_unblock (only signo) s

  -- Whether the call works, and the process behind it.
  unfoldable pub sigignore : ℕ → c.Process → Bool × c.Process
  sigignore signo s =
      elim (c.sigaction signo (record { sa_handler = sig_ign; sa_mask = empty; sa_flags = 0 }) s) [
        | none ↦ (false, s)
        | some t ↦ (true, t)
      ]

  -- `sigdelset` takes the signal out of the mask that `sigprocmask` stored.
  unfoldable pub sigpause : ℕ → c.Process → c.Process
  sigpause signo s =
      c.sigsuspend (λ k. c.mask s k && not (only signo k))
        (c.sigprocmask sig_unblock (only signo) s)
