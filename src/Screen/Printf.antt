-- ===== src/Screen/Printf.antt =====
-- printf of student-distrib/lib.c: the format interpreter and the words that it takes from the
-- stack.
pub mod Numbers
pub mod Laws
use linux_like_os.Base.{
  ℕ, zero, suc, ◌+◌, ◌-◌, ◌%◌, ◌^◌, ltb, leb, ◌==◌, if◌then◌else◌, Bool, true, false, Option, none,
  some, List, [], ◌∷◌, ◌++◌, length, replicate, drop,
}
use linux_like_os.CString.{itoa}
use linux_like_os.Screen.{Screen, putc, puts}

-- An argument on the stack: a 32-bit word, or a pointer to a string, given as its text.
pub data Arg : Type 0 where
  word : ℕ → Arg
  str : List ℕ → Arg

-- `%#x`: `itoa` writes from `conv_buf[8]`, zeros fill `conv_buf` from the length of the digits up
-- to 8, and printing starts at that length.
unfoldable pub alternate_text : ℕ → List ℕ
alternate_text value =
    let digits = itoa value 16 in
    replicate (8 - length digits) b'0' ++ drop (length digits - 8) digits

-- `%d`: a word from 2^31 on is negative.
unfoldable pub signed_text : ℕ → List ℕ
signed_text value = if leb (2 ^ 31) value then b'-' ∷ itoa (2 ^ 32 - value) 10 else itoa value 10

-- Where the interpreter stands in the format: outside of a conversion, or in one, with or without
-- the alternate flag.
pub data Mode : Type 0 where
  plain : Mode
  conversion : (alternate : Bool) → Mode

pub record State : Type 0 where
  pub mode : Mode
  pub args : List Arg
  pub screen : Screen

abbrev pub state : Mode → List Arg → Screen → State
state m a s = record { mode = m; args = a; screen = s }

-- A conversion takes the next word, or prints the next string; `none` where the caller passed none.
unfoldable pub take_word : (ℕ → Screen → Screen) → List Arg → Screen → Option State
take_word show [] s = none
take_word show (word w ∷ args) s = some (state plain args (show w s))
take_word show (str t ∷ args) s = none

unfoldable pub take_text : List Arg → Screen → Option State
take_text [] s = none
take_text (word w ∷ args) s = none
take_text (str t ∷ args) s = some (state plain args (puts t s))

-- The inner `switch`. Its `default` skips the character.
unfoldable pub convert : Bool → ℕ → List Arg → Screen → Option State
unfolding take_word take_text
convert alternate c args s =
    if c == b'%'
    then some (state plain args (putc b'%' s))
    else if c == b'#'
    then some (state (conversion true) args s)
    else if c == b'x'
    then take_word (λ w. puts (if alternate then alternate_text w else itoa w 16)) args s
    else if c == b'u'
    then take_word (λ w. puts (itoa w 10)) args s
    else if c == b'd'
    then take_word (λ w. puts (signed_text w)) args s
    else if c == b'c'
    then take_word (λ w. putc (w % 2 ^ 8)) args s
    else if c == b's'
    then take_text args s
    else some (state plain args s)

-- One character of the format.
unfoldable pub step : ℕ → Mode → List Arg → Screen → Option State
unfolding convert
step c plain args s =
    if c == b'%' then some (state (conversion false) args s) else some (state plain args (putc c s))
step c (conversion alternate) args s = convert alternate c args s

-- Only the outer `while` tests for the terminator.
abbrev pub at_end : Mode → ℕ → Bool
at_end plain c = c == 0
at_end (conversion alternate) c = false

-- The result counts the characters passed.
unfoldable pub printf_loop : List ℕ → ℕ → State → Option (ℕ × Screen)
printf_loop [] n t = none
printf_loop (c ∷ format) n t =
    let rest : Option (ℕ × Screen) = elim (step c t.mode t.args t.screen) [
      | none ↦ none
      | some t' ↦ printf_loop format (n + 1) t'
    ] in
    if at_end t.mode c then some (n, t.screen) else rest

unfoldable pub printf : List ℕ → List Arg → Screen → Option (ℕ × Screen)
unfolding printf_loop
printf format args s = printf_loop format 0 (state plain args s)
