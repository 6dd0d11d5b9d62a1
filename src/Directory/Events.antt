-- ===== src/Directory/Events.antt =====
-- The records of inotify(7), and what `display_event` prints for a buffer of them.
use linux_programming.Base.{
  ℕ, zero, suc, ◌+◌, ◌-◌, ◌*◌, ◌/◌, ◌%◌, ◌<◌, ◌≤◌, ◌≡◌, refl, sym, ap, ◌∙◌, List, Bool, true, false,
  All, map, [], ◌∷◌, ◌++◌, some, length, drop, replicate, arith, length-append, length-replicate,
  drop-append, lt→ltb,
}
use mathlib.Core.List.{append_assoc}
use linux_programming.Cstr.{Bytes, codes}
use linux_programming.Cstr.Arrays.{IsString, c_str-append_nul}
use linux_programming.Kernel.Defs.{ok}
use linux_programming.Directory.{mask_of, len_of, name_of, shown, display, display_event}

-- The kinds of event that are asked for.
pub data Kind : Type 0 where
  created deleted moved_from moved_to : Kind

-- An event as the kernel gives it: its name ends with at least one NUL.
pub record Event : Type 0 where
  pub wd : ℕ
  pub kind : Kind
  pub on_directory : Bool
  pub cookie : ℕ
  pub name : Bytes
  pub padding : ℕ

-- IN_CREATE, IN_DELETE, IN_MOVED_FROM or IN_MOVED_TO, with IN_ISDIR for a directory.
abbrev pub mask : Kind → Bool → ℕ
mask created false = 0x100
mask deleted false = 0x200
mask moved_from false = 0x40
mask moved_to false = 0x80
mask created true = 0x40000100
mask deleted true = 0x40000200
mask moved_from true = 0x40000040
mask moved_to true = 0x40000080

-- The message for an event.
abbrev pub message : Event → Bytes
message e = codes "File/directory " ++ verb e.kind ++ e.name ++ codes "\n"
  where
    verb : Kind → Bytes
    verb created = codes "created: "
    verb deleted = codes "deleted: "
    verb moved_from = codes "moved from: "
    verb moved_to = codes "moved to: "

abbrev pub len : Event → ℕ
len e = length e.name + suc e.padding

abbrev pub word : ℕ → Bytes
word n = (n % 256) ∷ ((n / 256) % 256) ∷ ((n / 65536) % 256) ∷ ((n / 16777216) % 256) ∷ []

abbrev encode : Event → Bytes
encode e =
    word e.wd
    ++ word (mask e.kind e.on_directory)
    ++ word e.cookie
    ++ word (len e)
    ++ e.name
    ++ replicate (suc e.padding) 0

abbrev pub encode_all : List Event → Bytes
encode_all [] = []
encode_all (e ∷ es) = encode e ++ encode_all es

-- The length fits 32 bits, and the name is a string.
abbrev pub IsEvent : Event → Type 0
IsEvent e = (len e < 4294967296) × IsString e.name

word_of :
    (n : ℕ)
    → n < 4294967296
    → n % 256
        + 256 * ((n / 256) % 256)
        + 65536 * ((n / 65536) % 256)
        + 16777216 * ((n / 16777216) % 256)
      ≡ n
word_of n h = omega arith

mask_lt : (k : Kind) (d : Bool) → mask k d < 4294967296
mask_lt created false = omega arith
mask_lt deleted false = omega arith
mask_lt moved_from false = omega arith
mask_lt moved_to false = omega arith
mask_lt created true = omega arith
mask_lt deleted true = omega arith
mask_lt moved_from true = omega arith
mask_lt moved_to true = omega arith

mask_of-encode :
    (e : Event) (rest : Bytes) → mask_of (encode e ++ rest) ≡ mask e.kind e.on_directory
mask_of-encode e rest = word_of (mask e.kind e.on_directory) (mask_lt e.kind e.on_directory)

len_of-encode : (e : Event) (rest : Bytes) → IsEvent e → len_of (encode e ++ rest) ≡ len e
len_of-encode e rest h = word_of (len e) h.0

drop-encode :
    (e : Event) (rest : Bytes)
    → drop 16 (encode e ++ rest) ≡ e.name ++ (replicate (suc e.padding) 0 ++ rest)
drop-encode e rest = append_assoc e.name (replicate (suc e.padding) 0) rest

name_of-encode : (e : Event) (rest : Bytes) → IsEvent e → name_of (encode e ++ rest) ≡ e.name
name_of-encode e rest h =
    rw (drop-encode e rest) (c_str-append_nul e.name (replicate e.padding 0 ++ rest) h.1)

-- Each event that is asked for has its message, for a file and for a directory.
shown-message :
    (k : Kind) (d : Bool) (wd cookie padding : ℕ) (name : Bytes)
    → shown (mask k d) name
      ≡ message (record {
        wd = wd;
        kind = k;
        on_directory = d;
        cookie = cookie;
        name = name;
        padding = padding;
      })
        ∷ []
unfolding shown
shown-message created false wd cookie padding name = refl
shown-message deleted false wd cookie padding name = refl
shown-message moved_from false wd cookie padding name = refl
shown-message moved_to false wd cookie padding name = refl
shown-message created true wd cookie padding name = refl
shown-message deleted true wd cookie padding name = refl
shown-message moved_from true wd cookie padding name = refl
shown-message moved_to true wd cookie padding name = refl

length-encode : (e : Event) → length (encode e) ≡ 16 + len e
length-encode e = omega (
  arith,
  length-append e.name (replicate (suc e.padding) 0),
  length-replicate {A = ℕ} (suc e.padding) 0,
)

behind-encode : (e : Event) (rest : Bytes) → drop (len e) (drop 16 (encode e ++ rest)) ≡ rest
behind-encode e rest =
    let whole : length (e.name ++ replicate (suc e.padding) 0) ≡ len e =
      length-append e.name (replicate (suc e.padding) 0)
      ∙ ap (λ n. length e.name + n) (length-replicate (suc e.padding) 0) in
    ap (λ n. drop n (drop 16 (encode e ++ rest))) (sym whole)
    ∙ drop-append (e.name ++ replicate (suc e.padding) 0) rest

-- One turn of the loop, at an event.
display-encode :
    (fuel : ℕ) (e : Event) (rest : Bytes) (left : ℕ)
    → IsEvent e
    → display (suc fuel) (encode e ++ rest) (length (encode e) + left)
      ≡ message e ∷ display fuel rest left
unfolding display
display-encode fuel e rest left h =
    let some_left = lt→ltb 0 (length (encode e) + left) (omega (arith, length-encode e)) in
    let less : length (encode e) + left - (16 + len e) ≡ left = omega (arith, length-encode e) in
    rw
      (
        display,
        some_left,
        len_of-encode e rest h,
        behind-encode e rest,
        less,
        mask_of-encode e rest,
        name_of-encode e rest h,
      )
      (ap (λ m. m ++ display fuel rest left)
        (shown-message e.kind e.on_directory e.wd e.cookie e.padding e.name))

-- With fuel for the bytes that were read, whatever stands behind them in the array.
display-encode_all :
    (fuel : ℕ) (es : List Event) (junk : Bytes)
    → All IsEvent es
    → length (encode_all es) ≤ fuel
    → display fuel (encode_all es ++ junk) (length (encode_all es)) ≡ map message es
display-encode_all zero [] junk h f = unfold display in refl
display-encode_all (suc fuel) [] junk h f = unfold display in refl
display-encode_all zero (e ∷ es) junk h f =
    absurd (omega (arith, length-append (encode e) (encode_all es), length-encode e))
display-encode_all (suc fuel) (e ∷ es) junk h f =
    let ih =
      display-encode_all fuel es junk h.1
        (omega (arith, length-append (encode e) (encode_all es), length-encode e)) in
    ap (λ b. display (suc fuel) b (length (encode_all (e ∷ es))))
      (append_assoc (encode e) (encode_all es) junk)
    ∙ ap (display (suc fuel) (encode e ++ (encode_all es ++ junk)))
        (length-append (encode e) (encode_all es))
    ∙ (display-encode fuel e (encode_all es ++ junk) (length (encode_all es)) h.0
        ∙ ap (λ m. message e ∷ m) ih)

-- A read that gives the records of some events, of the kinds that are asked for, prints their
-- messages in their order, one for each, whatever the array held before.
pub display_event-messages :
    (buffer : Bytes) (e : Event) (es : List Event)
    → All IsEvent (e ∷ es)
    → display_event buffer (ok (encode_all (e ∷ es))) ≡ some (map message (e ∷ es))
unfolding display_event
display_event-messages buffer e es h = ap some (
    display-encode_all (length (encode_all (e ∷ es))) (e ∷ es)
      (drop (length (encode_all (e ∷ es))) buffer) h (omega arith))
