-- ===== src/Logging.antt =====
-- include/logging.h: what is printed and flushed, and in what order. The time stamp and the formatted
-- text are arguments, since the one comes from the C library and the other from fmt. The mutex makes
-- a call one step.
use mathlib.Core.Bool.{false≢true}
use turbokit.Base.{
  ℕ, ◌≡◌, refl, ap, ◌∙◌, Bool, true, false, Bool-cases, inl, inr, Option, none, some, Option-cases,
  sym, List, [], ◌∷◌, ◌++◌, ◌==◌, leb, if◌then◌else◌, arith,
}

pub data MessageLevel : Type 0 where
  msg_none msg_error msg_info msg_verbose msg_debug : MessageLevel

-- The order of the enumeration.
abbrev pub rank : MessageLevel → ℕ
rank msg_none = 0
rank msg_error = 1
rank msg_info = 2
rank msg_verbose = 3
rank msg_debug = 4

pub data Stream : Type 0 where
  stdout stderr : Stream

pub data Event : Type 0 where
  flush : Stream → Event
  print : Stream → List ℕ → Event

abbrev pub newline : ℕ
newline = 10

-- `back`, of a string that may be empty.
abbrev pub back : List ℕ → Option ℕ
back [] = none
back (x ∷ []) = some x
back (x ∷ y ∷ ys) = back (y ∷ ys)

-- ` turbokit: `
abbrev pub separator : List ℕ
separator = 32 ∷ 116 ∷ 117 ∷ 114 ∷ 98 ∷ 111 ∷ 107 ∷ 105 ∷ 116 ∷ 58 ∷ 32 ∷ []

abbrev pub newline_at : Option ℕ → Bool
newline_at none = false
newline_at (some c) = c == newline

abbrev pub ends_line : List ℕ → Bool
ends_line text = newline_at (back text)

-- The line of the two formats.
abbrev pub line_of : (stamp text : List ℕ) → List ℕ
line_of stamp text =
    if ends_line text
    then stamp ++ (separator ++ text)
    else stamp ++ (separator ++ (text ++ (newline ∷ [])))

unfoldable pub write_message : MessageLevel → (stamp text : List ℕ) → List Event
write_message level stamp text =
    let (primary_output, secondary_output) = elim level as (λ l. Stream × Stream) [
      | msg_error ↦ (stderr, stdout)
      | _ ↦ (stdout, stderr)
    ] in
    flush secondary_output ∷ print primary_output (line_of stamp text) ∷ flush primary_output ∷ []

-- `MessageWriter::error`, and those that ask for the active level.
unfoldable pub error : (stamp text : List ℕ) → List Event
error stamp text = write_message msg_error stamp text

abbrev pub write_from : (active level : MessageLevel) → (stamp text : List ℕ) → List Event
write_from active level stamp text =
    if leb (rank level) (rank active) then write_message level stamp text else []

unfoldable pub info : MessageLevel → (stamp text : List ℕ) → List Event
info active stamp text = write_from active msg_info stamp text

unfoldable pub verbose : MessageLevel → (stamp text : List ℕ) → List Event
verbose active stamp text = write_from active msg_verbose stamp text

unfoldable pub debug : MessageLevel → (stamp text : List ℕ) → List Event
debug active stamp text = write_from active msg_debug stamp text

-- A line that is printed ends the line, and has the stamp at its start.
abbrev pub IsLine : List ℕ → List ℕ → Type 0
IsLine stamp line = (rest : List ℕ) × (line ≡ stamp ++ rest) × (back line ≡ some newline)

back-append : (xs : List ℕ) (y : ℕ) (ys : List ℕ) → back (xs ++ (y ∷ ys)) ≡ back (y ∷ ys)
back-append [] y ys = refl
back-append (x ∷ []) y ys = refl
back-append (x ∷ z ∷ xs) y ys = back-append (z ∷ xs) y ys

ends_line-back : (text : List ℕ) → ends_line text ≡ true → back text ≡ some newline
ends_line-back text h = elim (Option-cases (back text)) [
  | inl e ↦ absurd (false≢true (sym (ap newline_at e) ∙ h))
  | inr (c, e) ↦
      let last : (c == newline) ≡ true = sym (ap newline_at e) ∙ h in
      let same : c ≡ newline = ground arith in e ∙ ap some same
]

back-whole :
    (stamp : List ℕ) (y : ℕ) (ys : List ℕ) → back (stamp ++ (separator ++ (y ∷ ys))) ≡ back (y ∷ ys)
back-whole stamp y ys = back-append stamp 32 _ ∙ back-append separator y ys

line_of-IsLine : (stamp text : List ℕ) → IsLine stamp (line_of stamp text)
line_of-IsLine stamp [] = (separator ++ (newline ∷ []), refl, back-whole stamp newline [])
line_of-IsLine stamp (y ∷ ys) = elim (Bool-cases (ends_line (y ∷ ys))) [
  | inl ended ↦
      rw ended (separator ++ (y ∷ ys), refl, back-whole stamp y ys ∙ ends_line-back (y ∷ ys) ended)
  | inr open_ ↦ rw open_ (
    separator ++ ((y ∷ ys) ++ (newline ∷ [])),
    refl,
    back-whole stamp y (ys ++ (newline ∷ [])) ∙ back-append (y ∷ ys) newline [],
  )
]

-- A message goes to one stream as one line that ends with a newline, whether or not its text does,
-- after the other stream has been flushed: to the standard error exactly for an error.
pub write_message-IsLine :
    (level : MessageLevel) (stamp text : List ℕ)
    → (line : List ℕ) × IsLine stamp line
      × (write_message level stamp text ≡ (
          if rank level == 1
          then flush stdout ∷ print stderr line ∷ flush stderr ∷ []
          else flush stderr ∷ print stdout line ∷ flush stdout ∷ []))
unfolding write_message
write_message-IsLine level stamp text =
    (line_of stamp text, line_of-IsLine stamp text, streams level)
  where
    streams :
        (level : MessageLevel)
        → write_message level stamp text ≡ (
            if rank level == 1
            then flush stdout ∷ print stderr (line_of stamp text) ∷ flush stderr ∷ []
            else flush stderr ∷ print stdout (line_of stamp text) ∷ flush stdout ∷ [])
    streams msg_none = refl
    streams msg_error = refl
    streams msg_info = refl
    streams msg_verbose = refl
    streams msg_debug = refl
