-- ===== src/Shell/Words.antt =====
-- The words of a command line: `_strtok` and the loop over it in `pdbs_shell` of src/shell.c. A
-- string is the list of its characters, a pointer into the line what follows it; the end of a string
-- that `_strtok` writes over a delimiter cuts the list.
use usb_pd_firmware.Prelude.{
  ℕ, zero, suc, ◌≡◌, refl, ap, ◌⊎◌, inl, inr, Bool-cases, Bool, true, false, ◌||◌, leb, ◌==◌,
  if◌then◌else◌, Option, none, some, List, [], ◌∷◌, length, arith,
}

abbrev pub Text : Type 0
Text = List ℕ

abbrev pub max_arguments : ℕ
max_arguments = 2

-- The characters of " \t".
abbrev pub is_blank : ℕ → Bool
is_blank c = c == 0x20 || c == 0x09

-- `str + strspn(str, " \t")`.
pub skip_blanks : Text → Text
skip_blanks [] = []
skip_blanks (c ∷ s) = if is_blank c then skip_blanks s else c ∷ s

-- `strpbrk(str, " \t")`: what stands before the blank that it finds, which becomes the end of the
-- string, and what stands after.
pub cut_at_blank : Text → Text × Option Text
cut_at_blank [] = ([], none)
cut_at_blank (c ∷ s) =
    let (before, after) = cut_at_blank s in if is_blank c then ([], some s) else (c ∷ before, after)

-- `*token ? token : NULL`.
abbrev pub token_or_null : Text → Option Text
token_or_null [] = none
token_or_null (c ∷ cs) = some (c ∷ cs)

-- The token, and `*saveptr`.
unfoldable pub strtok : Option Text → Option Text × Option Text
unfolding skip_blanks cut_at_blank
strtok none = (none, none)
strtok (some s) =
    let (token, saveptr) = cut_at_blank (skip_blanks s) in (token_or_null token, saveptr)

-- What is to be done with a line.
pub data Line : Type 0 where
  blank : Line
  too_many : Line
  words : Text → List Text → Line

-- One round of the loop that collects the arguments, with what the next rounds collect; `none` is
-- the abort.
abbrev pub collected : Option Text → Option (List Text) → Option (List Text)
collected none rest = some []
collected (some arg) none = none
collected (some arg) (some args) = some (arg ∷ args)

-- The loop; the first number is how many more arguments fit.
pub arguments : ℕ → Option Text → Option (List Text)
unfolding strtok
arguments zero saveptr = collected (strtok saveptr).0 none
arguments (suc n) saveptr =
    let (lp, saveptr') = strtok saveptr in collected lp (arguments n saveptr')

-- `cmd` is NULL for a blank line and after too many arguments.
abbrev pub line_of : Option Text → Option (List Text) → Line
line_of cmd none = too_many
line_of none (some args) = blank
line_of (some name) (some args) = words name args

-- The first token is the command.
unfoldable pub tokenize : Text → Line
unfolding arguments
tokenize line =
    let (cmd, saveptr) = strtok (some line) in line_of cmd (arguments max_arguments saveptr)

-- The words of a text, independently: the maximal runs of characters that are not blanks.
abbrev starts_blank : Text → Bool
starts_blank [] = true
starts_blank (c ∷ s) = is_blank c

abbrev prepend : ℕ → List Text → List Text
prepend c [] = (c ∷ []) ∷ []
prepend c (w ∷ ws) = (c ∷ w) ∷ ws

pub split : Text → List Text
split [] = []
split (c ∷ s) =
    if is_blank c
    then split s
    else if starts_blank s
    then (c ∷ []) ∷ split s
    else prepend c (split s)

-- A line of at most three words is a command with at most two arguments.
abbrev pub classify : List Text → Line
classify [] = blank
classify (name ∷ args) = if leb (length args) 2 then words name args else too_many

split-skip_blanks : (s : Text) → split (skip_blanks s) ≡ split s
unfolding split skip_blanks
split-skip_blanks [] = refl
split-skip_blanks (c ∷ s) = ground (arith, split-skip_blanks s)

-- The words that are left at a pointer.
abbrev left : Option Text → List Text
left none = []
left (some s) = split s

-- What a cut leaves of a text that starts with a word.
split-cut_at_blank :
    (c : ℕ) (s : Text)
    → is_blank c ≡ false
    → split (c ∷ s) ≡ (cut_at_blank (c ∷ s)).0 ∷ left (cut_at_blank (c ∷ s)).1
unfolding split cut_at_blank
split-cut_at_blank c [] h = ground arith
split-cut_at_blank c (d ∷ s) h = elim (Bool-cases (is_blank d)) [
  | inl b ↦ rw (h, b) refl
  | inr n ↦ rw (h, n) (ap (prepend c) (rw n at (split-cut_at_blank d s n)))
]

cut_cons :
    (c : ℕ) (s : Text)
    → is_blank c ≡ false
    → cut_at_blank (c ∷ s) ≡ (c ∷ (cut_at_blank s).0, (cut_at_blank s).1)
unfolding cut_at_blank
cut_cons c s n = rw n refl

skip_blanks-cases :
    (s : Text)
    → (skip_blanks s ≡ []) ⊎ ((c : ℕ) × (r : Text) × (skip_blanks s ≡ c ∷ r) × (is_blank c ≡ false))
unfolding skip_blanks
skip_blanks-cases [] = inl refl
skip_blanks-cases (c ∷ s) = elim (Bool-cases (is_blank c)) [
  | inl b ↦ rw b (skip_blanks-cases s)
  | inr n ↦ inr (c, s, rw n refl, n)
]

-- `_strtok` takes the first word of those that are left.
abbrev head? : List Text → Option Text
head? [] = none
head? (w ∷ ws) = some w

abbrev tail : List Text → List Text
tail [] = []
tail (w ∷ ws) = ws

strtok-left :
    (p : Option Text) → ((strtok p).0 ≡ head? (left p)) × (left (strtok p).1 ≡ tail (left p))
unfolding strtok split cut_at_blank
strtok-left none = (refl, refl)
strtok-left (some s) = elim (skip_blanks-cases s) [
  | inl e ↦ rw (← split-skip_blanks s, e) (refl, refl)
  | inr (c, r, e, n) ↦
      rw (← split-skip_blanks s, e, split-cut_at_blank c r n, cut_cons c r n) (refl, refl)
]

-- What the loop collects of the words that are left.
abbrev few : ℕ → List Text → Option (List Text)
few n ws = if leb (length ws) n then some ws else none

few-zero : (ws : List Text) → collected (head? ws) none ≡ few 0 ws
few-zero [] = refl
few-zero (w ∷ ws) = ground arith

few-suc : (n : ℕ) (ws : List Text) → collected (head? ws) (few n (tail ws)) ≡ few (suc n) ws
few-suc n [] = ground arith
few-suc n (w ∷ ws) = ground arith

arguments-left : (n : ℕ) (p : Option Text) → arguments n p ≡ few n (left p)
unfolding arguments
arguments-left zero p = rw ((strtok-left p).0) (few-zero (left p))
arguments-left (suc n) p =
    rw ((strtok-left p).0, arguments-left n (strtok p).1, (strtok-left p).1) (few-suc n (left p))

classify_lem : (ws : List Text) → line_of (head? ws) (few 2 (tail ws)) ≡ classify ws
classify_lem [] = refl
classify_lem (w ∷ ws) = ground arith

-- The line is taken apart as its words are, for every line: the first is the command, the others
-- are its arguments, and a line with more than two arguments, or with no words, does nothing.
pub tokenize-eq-classify : (line : Text) → tokenize line ≡ classify (split line)
unfolding tokenize
tokenize-eq-classify line =
    rw
      (
        (strtok-left (some line)).0,
        arguments-left 2 (strtok (some line)).1,
        (strtok-left (some line)).1,
      )
      (classify_lem (split line))
