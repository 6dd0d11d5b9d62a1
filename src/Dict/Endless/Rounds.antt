-- ===== src/Dict/Endless/Rounds.antt =====
-- The rounds of main.c with lookup1.c, which the makefile links it with, on what convert.c writes.
use linux_programming.Base.{false, List, Option, map}
use linux_programming.Cstr.{Bytes}
use linux_programming.Dict.Record.Files.{file_of}
use linux_programming.Dict.Convert.Entries.{Entry, record_of}
use linux_programming.Dict.Linear.{Static, opened}
use linux_programming.Dict.Linear.Entries.{text_of}

-- The records and the file of a dictionary.
abbrev file : List Entry → Bytes
file es = file_of (map record_of es)

abbrev text : List Entry → Bytes → Option Bytes
text es w = text_of w es

-- The state of `lookup` behind a word that it has found.
abbrev searching : Bytes → Static
searching bytes = record { first_time = false; stream = opened bytes }
