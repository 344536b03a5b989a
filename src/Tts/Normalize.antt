-- ===== src/Tts/Normalize.antt =====
-- tts/text.go and tts/dictionary.go: the text as it is read aloud. Regular expressions are those of
-- Go's package regexp, and the classes of runes those of its package unicode: they are arguments.
use mamechat.Prelude.{
  ℕ, Bool, ◌||◌, not, Option, none, some, List, [], ◌∷◌, ◌++◌, Text, any, length, ltb, ◌==◌, codes,
  if◌then◌else◌,
}
use mamechat.Strings.{is_empty, trim_space, has_prefix}

pub record RuntimeDictionaryEntry : Type 0 where
  pub term : Text
  pub reading : Text

-- An entry that is ready for use: the pattern that its regular expression was compiled from.
pub record DictionaryEntry : Type 0 where
  pub replacement : Text
  pub pattern : Text

-- What is asked of the packages regexp and unicode: whether a pattern compiles, the text in which
-- its matches are replaced, the pattern that matches a text only, letters and digits.
pub record Regexp : Type 0 where
  pub compiles : Text → Bool
  pub replace_all : Text → Text → Text → Text
  pub quote_meta : Text → Text
  pub is_letter : ℕ → Bool
  pub is_digit : ℕ → Bool

-- `applyDictionary`
unfoldable pub apply_dictionary : Regexp → List DictionaryEntry → Text → Text
apply_dictionary r [] text = text
apply_dictionary r (e ∷ es) text =
    apply_dictionary r es (r.replace_all e.pattern e.replacement text)

-- The insertion of a stable sort by the length of the term, longest first.
unfoldable pub insert_entry :
    RuntimeDictionaryEntry → List RuntimeDictionaryEntry → List RuntimeDictionaryEntry
insert_entry e [] = e ∷ []
insert_entry e (f ∷ fs) =
    let rest = insert_entry e fs in
    if ltb (length e.term) (length f.term) then f ∷ rest else e ∷ f ∷ fs

-- `sort.SliceStable`
unfoldable pub sort_entries : List RuntimeDictionaryEntry → List RuntimeDictionaryEntry
unfolding insert_entry
sort_entries [] = []
sort_entries (e ∷ es) = insert_entry e (sort_entries es)

compile_sorted : Regexp → List RuntimeDictionaryEntry → List DictionaryEntry
compile_sorted r [] = []
compile_sorted r (e ∷ es) =
    let term = trim_space e.term in
    let reading = trim_space e.reading in
    let pattern = codes "(?i)" ++ r.quote_meta term in
    let rest = compile_sorted r es in
    if is_empty term || is_empty reading || not (r.compiles pattern)
    then rest
    else record { replacement = reading; pattern = pattern } ∷ rest

-- `compileRuntimeDictionary`
unfoldable pub compile_runtime_dictionary :
    Regexp → List RuntimeDictionaryEntry → List DictionaryEntry
unfolding compile_sorted sort_entries
compile_runtime_dictionary r entries = compile_sorted r (sort_entries entries)

-- `strings.Split(s, "\n")`, after the runes `line` of a line.
lines_from : Text → Text → List Text
lines_from line [] = line ∷ []
lines_from line (c ∷ s) =
    let next = lines_from [] s in
    let more = lines_from (line ++ c ∷ []) s in if c == 10 then line ∷ next else more

-- `strings.SplitN(line, "\t", 2)`, if there are two columns; after the runes `first`.
columns_from : Text → Text → Option (Text × Text)
columns_from first [] = none
columns_from first (c ∷ s) =
    let more = columns_from (first ++ c ∷ []) s in if c == 9 then some (first, s) else more

load_row : Regexp → Option (Text × Text) → List DictionaryEntry
load_row r none = []
load_row r (some (first, second)) =
    let pattern = trim_space first in
    let replacement = trim_space second in
    if is_empty pattern || is_empty replacement || not (r.compiles pattern)
    then []
    else record { replacement = replacement; pattern = pattern } ∷ []

load_line : Regexp → Text → List DictionaryEntry
load_line r line =
    let l = trim_space line in
    if is_empty l || has_prefix (codes "#") l then [] else load_row r (columns_from [] l)

load_lines : Regexp → List Text → List DictionaryEntry
load_lines r [] = []
load_lines r (l ∷ ls) = load_line r l ++ load_lines r ls

-- `loadDictionary`, from the file dictionary.tsv.
unfoldable pub load_dictionary : Regexp → Text → List DictionaryEntry
unfolding load_lines load_line load_row columns_from lines_from
load_dictionary r file = load_lines r (lines_from [] file)

abbrev pub url_pattern : Text
url_pattern = codes "https?://\\S+"

abbrev pub space_pattern : Text
space_pattern = codes "\\s+"

abbrev pub symbol_run_pattern : Text
symbol_run_pattern = codes "([!！?？ｗw笑。、,.・ー\\-_=*#]){6,}"

-- `directivePattern` of ttsautodict/directive.go.
abbrev pub directive_pattern : Text
directive_pattern = codes "[\\[［]([^\\[\\]［］\\n]{1,64})[\\]］][（(]([\\p{Katakana}ー・]{1,64})[）)]"

-- `NormalizeTextWithDictionary`: the text, and whether there is something to read in it.
unfoldable pub normalize_text_with_dictionary :
    Regexp → List DictionaryEntry → List RuntimeDictionaryEntry → Text → Text × Bool
normalize_text_with_dictionary r static dictionary text =
    let urls = r.replace_all url_pattern (codes "ゆーあーるえる") (trim_space text) in
    let directives = r.replace_all directive_pattern (codes "$2") urls in
    let users = apply_dictionary r (compile_runtime_dictionary r dictionary) directives in
    let known = apply_dictionary r static users in
    let runs = r.replace_all symbol_run_pattern (codes "$1$1$1") known in
    let spaced = r.replace_all space_pattern (codes " ") runs in
    (trim_space spaced, any (λ c. r.is_letter c || r.is_digit c) spaced)

-- `NormalizeText`
unfoldable pub normalize_text : Regexp → List DictionaryEntry → Text → Text × Bool
normalize_text r static text = normalize_text_with_dictionary r static [] text
