-- ===== src/Runner/Order.antt =====
-- The order in which the commands of a chapter run.
use mathlib.Core.List.{append_assoc, append-nil}
use tiny_wasm.Base.{
  ◌≡◌, refl, sym, ◌∙◌, subst, Bool, true, false, List, [], ◌∷◌, ◌++◌, if◌then◌else◌, arith, Option,
  some, none,
}
use tiny_wasm.Base.Result.{ok, Returns, Returns-ok, Returns-bind, Returns-bind_with}
use tiny_wasm.Base.Text.{Text, text_eq}
use tiny_wasm.Parser.{Parser, parser, parse}
use tiny_wasm.Runner.{
  Command, Entry, with_filename, with_action, other, text_lt, insert_command, Chapter, add_parser,
  find_parser, collect_entry, collect,
}

text_lt_trans : (s t u : Text) → text_lt s t ≡ true → text_lt u t ≡ false → text_lt s u ≡ true
unfolding text_lt
text_lt_trans s [] u h g = absurd (ground (arith, h))
text_lt_trans [] (d ∷ t) [] h g = absurd (ground (arith, g))
text_lt_trans [] (d ∷ t) (e ∷ u) h g = refl
text_lt_trans (c ∷ s) (d ∷ t) [] h g = absurd (ground (arith, g))
text_lt_trans (c ∷ s) (d ∷ t) (e ∷ u) h g = ground (arith, text_lt_trans s t u)

text_lt_differs : (s t : Text) → text_lt s t ≡ true → text_eq t s ≡ false
unfolding text_lt
text_lt_differs s [] h = absurd (ground (arith, h))
text_lt_differs [] (d ∷ t) h = refl
text_lt_differs (c ∷ s) (d ∷ t) h = ground (arith, text_lt_differs s t)

-- The commands of a file.
abbrev pub commands_of : Text → List (Text × Command) → List Command
commands_of file [] = []
commands_of file ((k, c) ∷ m) =
    let rest = commands_of file m in if text_eq k file then c ∷ rest else rest

-- No key stands before `file` in the order.
abbrev pub AreFrom : Text → List (Text × Command) → Type 0
AreFrom file [] = Unit
AreFrom file ((k, c) ∷ m) = (text_lt k file ≡ false) × AreFrom file m

abbrev pub IsSorted : List (Text × Command) → Type 0
IsSorted [] = Unit
IsSorted ((k, c) ∷ m) = AreFrom k m × IsSorted m

text_lt_asym : (s t : Text) → text_lt s t ≡ true → text_lt t s ≡ false
unfolding text_lt
text_lt_asym s [] h = absurd (ground (arith, h))
text_lt_asym [] (d ∷ t) h = refl
text_lt_asym (c ∷ s) (d ∷ t) h = ground (arith, text_lt_asym s t)

text_eq_sound : (s t : Text) → text_eq s t ≡ true → s ≡ t
text_eq_sound [] [] h = refl
text_eq_sound [] (d ∷ t) h = absurd (ground (arith, h))
text_eq_sound (c ∷ s) [] h = absurd (ground (arith, h))
text_eq_sound (c ∷ s) (d ∷ t) h = ground (arith, text_eq_sound s t)

-- Behind a later key there is no command of an earlier file.
none_later :
    (file k : Text) (m : List (Text × Command))
    → text_lt file k ≡ true
    → AreFrom k m
    → commands_of file m ≡ []
none_later file k [] h from = refl
none_later file k ((k', c) ∷ m) h (g, from) =
    rw (text_lt_differs file k' (text_lt_trans file k k' h g)) (none_later file k m h from)

from_later :
    (file k : Text) (m : List (Text × Command))
    → text_lt file k ≡ true
    → AreFrom k m
    → AreFrom file m
from_later file k [] h from = tt
from_later file k ((k', c) ∷ m) h (g, from) =
    (text_lt_asym file k' (text_lt_trans file k k' h g), from_later file k m h from)

insert_command-AreFrom :
    (k file : Text) (c : Command) (m : List (Text × Command))
    → text_lt file k ≡ false
    → AreFrom k m
    → AreFrom k (insert_command file c m)
unfolding insert_command
insert_command-AreFrom k file c [] h from = (h, tt)
insert_command-AreFrom k file c ((k', d) ∷ m) h (g, from) =
    place (text_lt file k') (insert_command-AreFrom k file c m h from)
  where
    place :
        (t : Bool)
        → AreFrom k (insert_command file c m)
        → AreFrom k (if t then (file, c) ∷ (k', d) ∷ m else (k', d) ∷ insert_command file c m)
    place true more = (h, (g, from))
    place false more = (g, more)

insert_command-IsSorted :
    (file : Text) (c : Command) (m : List (Text × Command))
    → IsSorted m
    → IsSorted (insert_command file c m)
unfolding insert_command
insert_command-IsSorted file c [] sorted = (tt, tt)
insert_command-IsSorted file c ((k, d) ∷ m) (from, sorted) =
    place (text_lt file k) refl (insert_command-IsSorted file c m sorted)
  where
    place :
        (t : Bool)
        → text_lt file k ≡ t
        → IsSorted (insert_command file c m)
        → IsSorted (if t then (file, c) ∷ (k, d) ∷ m else (k, d) ∷ insert_command file c m)
    place true e more = ((text_lt_asym file k e, from_later file k m e from), (from, sorted))
    place false e more = (insert_command-AreFrom k file c m e from, more)

-- A command is put behind those of its file.
abbrev put_behind : Bool → Command → List Command → List Command
put_behind true c cs = cs ++ c ∷ []
put_behind false c cs = cs

commands_of-insert_command :
    (f file : Text) (c : Command) (m : List (Text × Command))
    → IsSorted m
    → commands_of f (insert_command file c m) ≡ put_behind (text_eq file f) c (commands_of f m)
unfolding insert_command
commands_of-insert_command f file c [] sorted = alone (text_eq file f)
  where
    alone : (t : Bool) → (if t then c ∷ [] else []) ≡ put_behind t c []
    alone true = refl
    alone false = refl
commands_of-insert_command f file c ((k, d) ∷ m) (from, sorted) =
    place (text_lt file k) refl (commands_of-insert_command f file c m sorted)
  where
    here :
        (t : Bool)
        → text_eq file f ≡ t
        → text_lt file k ≡ true
        → (if t then c ∷ commands_of f ((k, d) ∷ m) else commands_of f ((k, d) ∷ m))
          ≡ put_behind t c (commands_of f ((k, d) ∷ m))
    here false e h = refl
    here true e h =
        let none : commands_of f ((k, d) ∷ m) ≡ [] =
          subst (λ g. commands_of g ((k, d) ∷ m) ≡ []) (text_eq_sound file f e)
            (rw (text_lt_differs file k h) (none_later file k m h from)) in
        rw none refl

    skip :
        (t u : Bool)
        → (if t then d ∷ put_behind u c (commands_of f m) else put_behind u c (commands_of f m))
          ≡ put_behind u c (if t then d ∷ commands_of f m else commands_of f m)
    skip true true = refl
    skip true false = refl
    skip false u = refl

    place :
        (t : Bool)
        → text_lt file k ≡ t
        → commands_of f (insert_command file c m) ≡ put_behind (text_eq file f) c (commands_of f m)
        → commands_of f (if t then (file, c) ∷ (k, d) ∷ m else (k, d) ∷ insert_command file c m)
          ≡ put_behind (text_eq file f) c (commands_of f ((k, d) ∷ m))
    place true e more = here (text_eq file f) refl e
    place false e more = rw more (skip (text_eq k f) (text_eq file f))

-- The commands of a file in the order in which the chapter has them, behind the file `cur`.
abbrev pub file_commands : Text → List Entry → Text → List Command
file_commands cur [] f = []
file_commands cur (with_filename file ∷ es) f = file_commands file es f
file_commands cur (with_action c ∷ es) f =
    let rest = file_commands cur es f in if text_eq cur f then c ∷ rest else rest
file_commands cur (other ∷ es) f = file_commands cur es f

-- What is collected from `es` on.
abbrev pub Collected : Chapter → List Entry → Chapter → Type 0
Collected chapter es chapter' =
    IsSorted chapter'.command_map
    × ((f : Text)
        → commands_of f chapter'.command_map
          ≡ commands_of f chapter.command_map ++ file_commands chapter.cur_wasm_file es f)

-- Adding a parser changes the parsers and nothing else.
parser_added :
    (o : Option Parser) (binary file : Text) (chapter : Chapter) (P : Chapter → Type 0)
    → ((parsers : List (Text × Parser)) → P (record chapter { parser_map = parsers }))
    → Returns P (add_parser o binary file chapter)
parser_added (some p) binary file chapter P h = Returns-ok P chapter (h chapter.parser_map)
parser_added none binary file chapter P h = Returns-bind P (parse (parser binary)) _ λ p.
    Returns-ok P (record chapter { parser_map = (file, p) ∷ chapter.parser_map })
      (h ((file, p) ∷ chapter.parser_map))

entry_collected :
    (read : Text → Text) (base_path : Text) (e : Entry) (es : List Entry) (chapter : Chapter)
    → IsSorted chapter.command_map
    → Returns
        (λ (next : Chapter).
          IsSorted next.command_map
          × ((f : Text)
              → commands_of f next.command_map ++ file_commands next.cur_wasm_file es f
                ≡ commands_of f chapter.command_map
                  ++ file_commands chapter.cur_wasm_file (e ∷ es) f))
        (collect_entry read base_path e chapter)
unfolding collect_entry
entry_collected read base_path (with_filename file) es chapter sorted =
    parser_added (find_parser chapter.parser_map file) (read (base_path ++ file)) file
      (record chapter { cur_wasm_file = file }) _ (λ parsers. (sorted, λ f. refl))
entry_collected read base_path (with_action c) es chapter sorted = Returns-ok _ _ (
  insert_command-IsSorted cur c m sorted,
  λ f.
      rw (commands_of-insert_command f cur c m sorted)
        (moved (text_eq cur f) (commands_of f m) (file_commands cur es f)),
)
  where
    cur : Text
    cur = chapter.cur_wasm_file

    m : List (Text × Command)
    m = chapter.command_map

    moved :
        (t : Bool) (cs ds : List Command)
        → put_behind t c cs ++ ds ≡ cs ++ (if t then c ∷ ds else ds)
    moved true cs ds = append_assoc cs (c ∷ []) ds
    moved false cs ds = refl
entry_collected read base_path other es chapter sorted = Returns-ok _ _ (sorted, λ f. refl)

collect-Collected :
    (read : Text → Text) (base_path : Text) (es : List Entry) (chapter : Chapter)
    → IsSorted chapter.command_map
    → Returns (Collected chapter es) (collect read base_path es chapter)
unfolding collect
collect-Collected read base_path [] chapter sorted =
    Returns-ok (Collected chapter []) chapter
      (sorted, λ f. sym (append-nil (commands_of f chapter.command_map)))
collect-Collected read base_path (e ∷ es) chapter sorted =
    Returns-bind_with (Collected chapter (e ∷ es)) _ _ _
      (entry_collected read base_path e es chapter sorted)
      λ next here last h.
        let (ordered, all) = collect-Collected read base_path es next here.0 last h in
        (ordered, λ f. all f ∙ here.1 f)

-- For every chapter whose modules can be parsed, the commands are collected in the order of the names of
-- their files, and those of a file are all the commands behind its name, in the order of the chapter.
pub collect-file_commands :
    (read : Text → Text) (base_path : Text) (es : List Entry) (chapter : Chapter)
    → collect read base_path es (record { cur_wasm_file = []; command_map = []; parser_map = [] })
      ≡ ok chapter
    → IsSorted chapter.command_map
      × ((f : Text) → commands_of f chapter.command_map ≡ file_commands [] es f)
collect-file_commands read base_path es chapter h =
    collect-Collected read base_path es
      (record { cur_wasm_file = []; command_map = []; parser_map = [] }) tt chapter h
