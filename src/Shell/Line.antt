-- ===== src/Shell/Line.antt =====
-- `shellGetLine` of src/shell.c: the line editor. Characters are bytes; `char` is unsigned on the
-- processor, so those from 0x80 on are printing characters.
use mathlib.Core.Path.{subst}
use usb_pd_firmware.Prelude.{
  ℕ, ◌-◌, ◌≤◌, ◌<◌, ◌≡◌, refl, ap, ◌∙◌, Bool, ◌||◌, ltb, ltb→lt, ◌==◌, if_cases, if◌then◌else◌,
  List, [], ◌∷◌, ◌++◌, length, length-append, append_assoc, append-nil, arith,
}

abbrev pub max_line_length : ℕ
max_line_length = 64

-- What one character makes of the line so far: more to come, an abort, or the line.
pub data Outcome : Type 0 where
  more : List ℕ → Outcome
  abort : Outcome
  entered : List ℕ → Outcome

-- `p--`.
abbrev pub init : List ℕ → List ℕ
init [] = []
init (x ∷ []) = []
init (x ∷ y ∷ xs) = x ∷ init (y ∷ xs)

abbrev pub is_delete : ℕ → Bool
is_delete c = c == 0x08 || c == 0x7f

-- One round of the loop: the line so far, and what is sent back. `size` is that of the buffer,
-- whose last byte is for the end of the string.
unfoldable pub get_line_step : ℕ → ℕ → List ℕ → Outcome × List ℕ
get_line_step size c line =
    if c == 0x04
    then (abort, 0x5e ∷ 0x44 ∷ [])
    else if is_delete c
    then (if ltb 0 (length line)
        then (more (init line), 0x08 ∷ 0x20 ∷ 0x08 ∷ [])
        else (more line, []))
    else if c == 0x0d
    then (entered line, 0x0d ∷ 0x0a ∷ [])
    else if ltb c 0x20
    then (more line, [])
    else if ltb (length line) (size - 1)
    then (more (line ++ c ∷ []), c ∷ [])
    else (more line, [])

-- The loop, over the characters that were typed; `more` where it waits for the next one, with
-- what is left of the input after the end.
pub shell_get_line : ℕ → List ℕ → List ℕ → Outcome × List ℕ × List ℕ
unfolding get_line_step
shell_get_line size [] line = (more line, [], [])
shell_get_line size (c ∷ cs) line =
    let (outcome, echo) = get_line_step size c line in
    elim outcome [
      | more line' ↦ let (end, out, rest) = shell_get_line size cs line' in (end, echo ++ out, rest)
      | abort ↦ (abort, echo, cs)
      | entered line' ↦ (entered line', echo, cs)
    ]

-- A terminal: what stands before the cursor. A backspace moves the cursor, others overwrite.
pub shows : List ℕ → List ℕ → List ℕ
shows screen [] = screen
shows screen (c ∷ cs) = shows (if c == 0x08 then init screen else screen ++ c ∷ []) cs

abbrev pub Printing : List ℕ → Type 0
Printing [] = Unit
Printing (c ∷ cs) = (0x20 ≤ c) × Printing cs

-- The line fits the buffer with the end of the string, has printing characters alone, so that no
-- byte of it ends the string early, and is what the terminal shows after the prompt.
abbrev pub Shown : ℕ → List ℕ → List ℕ → Outcome → Type 0
Shown size prompt screen (more line) =
    (length line < size) × Printing line × (screen ≡ prompt ++ line)
Shown size prompt screen (entered line) =
    (length line < size) × Printing line × (screen ≡ prompt ++ line ++ 0x0d ∷ 0x0a ∷ [])
Shown size prompt screen abort = Unit

init-snoc : (xs : List ℕ) (c : ℕ) → init (xs ++ c ∷ []) ≡ xs
init-snoc [] c = refl
init-snoc (x ∷ []) c = refl
init-snoc (x ∷ y ∷ xs) c = ap (λ zs. x ∷ zs) (init-snoc (y ∷ xs) c)

init-append : (xs ys : List ℕ) → 0 < length ys → init (xs ++ ys) ≡ xs ++ init ys
init-append [] ys h = refl
init-append (x ∷ []) [] h = absurd (omega arith)
init-append (x ∷ []) (y ∷ ys) h = refl
init-append (x ∷ y ∷ xs) ys h = ap (λ zs. x ∷ zs) (init-append (y ∷ xs) ys h)

length-init : (xs : List ℕ) → length (init xs) ≤ length xs
length-init [] = omega arith
length-init (x ∷ []) = omega arith
length-init (x ∷ y ∷ xs) = omega (arith, length-init (y ∷ xs))

init-Printing : (xs : List ℕ) → Printing xs → Printing (init xs)
init-Printing [] h = h
init-Printing (x ∷ []) h = tt
init-Printing (x ∷ y ∷ xs) h = (h.0, init-Printing (y ∷ xs) h.1)

snoc-Printing : (xs : List ℕ) (c : ℕ) → Printing xs → 0x20 ≤ c → Printing (xs ++ c ∷ [])
snoc-Printing [] c h k = (k, tt)
snoc-Printing (x ∷ xs) c h k = (h.0, snoc-Printing xs c h.1 k)

shows-append : (screen xs ys : List ℕ) → shows screen (xs ++ ys) ≡ shows (shows screen xs) ys
unfolding shows
shows-append screen [] ys = refl
shows-append screen (x ∷ xs) ys =
    shows-append (if x == 0x08 then init screen else screen ++ x ∷ []) xs ys

shows_erase :
    (prompt line : List ℕ)
    → 0 < length line
    → shows (prompt ++ line) (0x08 ∷ 0x20 ∷ 0x08 ∷ []) ≡ prompt ++ init line
unfolding shows
shows_erase prompt line h = init-snoc (init (prompt ++ line)) 0x20 ∙ init-append prompt line h

shows_char : (screen : List ℕ) (c : ℕ) → 0x20 ≤ c → shows screen (c ∷ []) ≡ screen ++ c ∷ []
unfolding shows
shows_char screen c h = ground arith

shows_end : (screen : List ℕ) → shows screen (0x0d ∷ 0x0a ∷ []) ≡ screen ++ 0x0d ∷ 0x0a ∷ []
unfolding shows
shows_end screen = append_assoc screen (0x0d ∷ []) (0x0a ∷ [])

pub get_line_step-Shown :
    (size c : ℕ) (prompt line : List ℕ)
    → length line < size
    → Printing line
    → Shown size prompt
        (shows (prompt ++ line) (get_line_step size c line).1)
        (get_line_step size c line).0
unfolding get_line_step shows
get_line_step-Shown size c prompt line fits p =
    if_cases Good (c == 0x04) (λ h. tt)
      λ h.
        if_cases Good (is_delete c)
          (λ h.
            if_cases Good (ltb 0 (length line))
              (λ k. (
                omega (arith, length-init line),
                init-Printing line p,
                shows_erase prompt line (ltb→lt 0 (length line) k),
              ))
              (λ k. (fits, p, refl)))
          λ other.
            if_cases Good (c == 0x0d) (λ h. (fits, p, shows_end (prompt ++ line)))
              λ h.
                if_cases Good (ltb c 0x20) (λ h. (fits, p, refl))
                  λ printing.
                    if_cases Good (ltb (length line) (size - 1))
                      (λ room. (
                        ground (arith, length-append line (c ∷ [])),
                        snoc-Printing line c p (ground arith),
                        shows_char (prompt ++ line) c (ground arith)
                            ∙ append_assoc prompt line (c ∷ []),
                      ))
                      (λ h. (fits, p, refl))
  where
    Good : Outcome × List ℕ → Type 0
    Good r = Shown size prompt (shows (prompt ++ line) r.1) r.0

continued-Shown :
    (size : ℕ) (prompt cs line : List ℕ)
    → length line < size
    → Printing line
    → Shown size prompt
        (shows (prompt ++ line) (shell_get_line size cs line).1)
        (shell_get_line size cs line).0
unfolding shell_get_line shows
continued-Shown size prompt [] line fits p = (fits, p, refl)
continued-Shown size prompt (c ∷ cs) line fits p =
    rest (continued-Shown size prompt cs) (get_line_step size c line).0
      (get_line_step-Shown size c prompt line fits p)
  where
    echo : List ℕ
    echo = (get_line_step size c line).1

    After : Outcome → Type 0
    After o =
        let r = elim o as (λ o. Outcome × List ℕ × List ℕ) [
          | more line' ↦ (
            (shell_get_line size cs line').0,
            echo ++ (shell_get_line size cs line').1,
            (shell_get_line size cs line').2,
          )
          | abort ↦ (abort, echo, cs)
          | entered line' ↦ (entered line', echo, cs)
        ] in
        Shown size prompt (shows (prompt ++ line) r.1) r.0

    rest :
        ((line' : List ℕ)
          → length line' < size
          → Printing line'
          → Shown size prompt
              (shows (prompt ++ line') (shell_get_line size cs line').1)
              (shell_get_line size cs line').0)
        → (o : Outcome) → Shown size prompt (shows (prompt ++ line) echo) o
        → After o
    rest ih (more line') (fits', p', e) =
        rw (shows-append (prompt ++ line) echo (shell_get_line size cs line').1, e)
          (ih line' fits' p')
    rest ih abort h = tt
    rest ih (entered line') h = h

-- Whatever is typed at an empty line: while the line is edited, and when it is entered, it fits the
-- buffer, has printing characters alone, and is what the terminal shows after the prompt.
pub shell_get_line-Shown :
    (size : ℕ) (cs prompt : List ℕ)
    → 0 < size
    → Shown size prompt (shows prompt (shell_get_line size cs []).1) (shell_get_line size cs []).0
shell_get_line-Shown size cs prompt room =
    subst
      (λ screen.
        Shown size prompt (shows screen (shell_get_line size cs []).1)
          (shell_get_line size cs []).0)
      (append-nil prompt) (continued-Shown size prompt cs [] room tt)
