-- ===== src/Dict/Endless/Tests.antt =====
-- Two words with an entry, and one without, with lookup1.c.
use linux_programming.Base.{List, [], ◌∷◌}
use linux_programming.Cstr.{Bytes, codes}

abbrev words : List Bytes
words = codes "ant" ∷ codes "bee" ∷ []
