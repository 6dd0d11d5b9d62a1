-- ===== src/Dict/Record.antt =====
-- homework/hw5/5-3/dict.h, which homework/hw11 has with one more #include.
pub mod Padded
pub mod Files
use linux_programming.Base.{
  ℕ, ◌+◌, ◌≡◌, List, [], ◌∷◌, ◌++◌, Option, none, some, ltb, if◌then◌else◌, length, take, drop,
  replicate,
}
use linux_programming.Cstr.{Bytes, c_str, strcpy}

-- WORD, TEXT and sizeof(Dictrec).
abbrev pub word_size : ℕ
word_size = 32

abbrev pub text_size : ℕ
text_size = 480

abbrev pub record_size : ℕ
record_size = 512

-- The two arrays of a `Dictrec`.
pub record Dictrec : Type 0 where
  pub word : Bytes
  pub text : Bytes

-- What `lookup` returns: FOUND, NOTFOUND, UNAVAIL.
pub data Answer : Type 0 where
  found notfound unavail : Answer

-- The string at `word`: in memory `text` stands right behind that array.
abbrev pub word_str : Dictrec → Bytes
word_str r = c_str (r.word ++ r.text)

abbrev pub text_str : Dictrec → Bytes
text_str r = c_str r.text

-- `static Dictrec dr`, and `memset(&dr, 0, sizeof(Dictrec))`.
abbrev pub blank : Dictrec
blank = record { word = replicate word_size 0; text = replicate text_size 0 }

-- `fwrite(&r, sizeof(r), 1, out)`: the bytes of a record.
abbrev pub record_bytes : Dictrec → Bytes
record_bytes r = r.word ++ r.text

-- `fread(&dr, sizeof(Dictrec), 1, in)`: the next record and the rest, none where fewer bytes than
-- a record are left.
unfoldable pub fread : Bytes → Option (Dictrec × Bytes)
fread file =
    if ltb (length file) record_size
    then none
    else some (
      record { word = take word_size file; text = take text_size (drop word_size file) },
      drop record_size file,
    )

pub record IsRecord (r : Dictrec) : Type 0 where
  pub word_fits : length r.word ≡ word_size
  pub text_fits : length r.text ≡ text_size

-- How a call ends: it returns, the program exits with status 1 (DIE), or its behaviour is
-- undefined.
pub data Call {ℓ} (A : Type ℓ) : Type ℓ where
  returns : A → Call A
  dies faults : Call A

-- `strcpy(sought->text, text)` and the result FOUND, with what else the call leaves.
unfoldable pub answer_found {ℓ} : {S : Type ℓ} → S → Dictrec → Bytes → Call (S × Answer × Dictrec)
answer_found s sought text = elim (strcpy sought.text text) [
  | none ↦ faults
  | some array ↦ returns (s, found, record { word = sought.word; text = array })
]
