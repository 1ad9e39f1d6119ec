-- ===== src/Tests/Parser.antt =====
-- Texts with calls of a function that gives nothing, and of one that gives its argument.
use tuned.Base.{
  String, ◌≡◌, refl, Option, none, some, List, [], ◌∷◌, ◌==◌, string_eq, if◌then◌else◌,
}
use tuned.Base.{◌≢◌}
use tuned.Profiles.Parser.Ends.{process-Ends}
use tuned.Profiles.Parser.{unfinished, expanded, unpaired_close, index_error, process}

abbrev functions : String → List String → Option (Option String)
functions name [] = if name == "nothing" then some (some "") else none
functions name (a ∷ args) = if name == "same" then some (some a) else none

nested : process functions "a ${f:same:x\\:${f:same:y}} b" ≡ expanded "a x:y b"
unfolding process string_eq
nested = refl

-- Behind a call at the start of the text that gives nothing, a character is passed over: the second
-- call is not seen, and its brace has no partner.
skipped_call : process functions "${f:nothing}${f:same:x}" ≡ unpaired_close "${f:same:x}"
unfolding process string_eq
skipped_call = refl

-- Anywhere else it is expanded.
seen_call : process functions "a${f:nothing}${f:same:x}" ≡ expanded "ax"
unfolding process string_eq
seen_call = refl

-- A call without a name.
no_name : process functions "${f}" ≡ index_error
unfolding process string_eq
no_name = refl

process-Ends_example : process functions "a${f:nothing}${f:same:x}" ≢ unfinished
process-Ends_example = process-Ends functions "a${f:nothing}${f:same:x}"
