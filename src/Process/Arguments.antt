-- ===== src/Process/Arguments.antt =====
-- How a command line is cut: the name that `execute` looks up, and the arguments that `getargs`
-- hands to the program.
use linux_like_os.Base.{
  ℕ, zero, suc, ◌<◌, ◌≤◌, ◌≡◌, ◌≢◌, refl, ap, ◌∙◌, arith, true, false, Bool, some, List, [], ◌∷◌,
  ◌++◌, length, replicate, ==_ne,
}
use linux_like_os.Process.Memory.{skip_command}
use linux_like_os.Process.Program.{skip_spaces, first_word, command_name}

-- A word: bytes that are not spaces.
pub data IsWord : List ℕ → Type 0 where
  none_left : IsWord []
  next_byte : {c : ℕ} {w : List ℕ} → c ≢ b' ' → IsWord w → IsWord (c ∷ w)

abbrev pub spaces : ℕ → List ℕ
spaces n = replicate n b' '

skip_command-lead :
    (n : ℕ) (t : List ℕ) → skip_command false false (spaces n ++ t) ≡ skip_command false false t
unfolding skip_command
skip_command-lead zero t = refl
skip_command-lead (suc n) t = skip_command-lead n t

skip_command-word :
    (b : Bool) (w t : List ℕ)
    → IsWord w
    → 0 < length w
    → skip_command b false (w ++ t) ≡ skip_command true false t
unfolding skip_command
skip_command-word b [] t i lt = absurd (omega (arith, lt))
skip_command-word b (c ∷ []) t (next_byte ne i) lt = rw (==_ne c 32 ne) refl
skip_command-word b (c ∷ d ∷ w) t (next_byte ne i) lt =
    rw (==_ne c 32 ne) (skip_command-word true (d ∷ w) t i (omega arith))

skip_command-gap :
    (n c : ℕ) (t : List ℕ) → c ≢ 32 → skip_command true true (spaces n ++ (c ∷ t)) ≡ c ∷ t
unfolding skip_command
skip_command-gap zero c t ne = rw (==_ne c 32 ne) refl
skip_command-gap (suc n) c t ne = skip_command-gap n c t ne

skip_command-first :
    (n : ℕ) (t : List ℕ)
    → skip_command true false (spaces (suc n) ++ t) ≡ skip_command true true (spaces n ++ t)
unfolding skip_command
skip_command-first n t = refl

-- For a command line of a name and arguments, with spaces before the name and at least one behind
-- it, the loop of `getargs` stops at the first byte of the arguments that is not a space, and
-- keeps the rest of the line with its inner spaces.
skip_command-arguments :
    (before between c : ℕ) (name rest : List ℕ)
    → IsWord name
    → 0 < length name
    → c ≢ b' '
    → skip_command false false (spaces before ++ (name ++ (spaces (suc between) ++ (c ∷ rest))))
      ≡ c ∷ rest
skip_command-arguments before between c name rest i lt ne =
    skip_command-lead before _
    ∙ skip_command-word false name _ i lt
    ∙ skip_command-first between (c ∷ rest)
    ∙ skip_command-gap between c rest ne

skip_spaces-lead : (n : ℕ) (t : List ℕ) → skip_spaces (spaces n ++ t) ≡ skip_spaces t
unfolding skip_spaces
skip_spaces-lead zero t = refl
skip_spaces-lead (suc n) t = skip_spaces-lead n t

skip_spaces-word : (w t : List ℕ) → IsWord w → 0 < length w → skip_spaces (w ++ t) ≡ w ++ t
unfolding skip_spaces
skip_spaces-word [] t i lt = absurd (omega (arith, lt))
skip_spaces-word (c ∷ w) t (next_byte ne i) lt = rw (==_ne c 32 ne) refl

-- What may follow the name: the end, or a space.
pub data IsCut : List ℕ → Type 0 where
  at_end : IsCut []
  at_space : {t : List ℕ} → IsCut (b' ' ∷ t)

first_word-end : (room : ℕ) (t : List ℕ) → IsCut t → first_word room t ≡ some []
unfolding first_word
first_word-end room [] at_end = refl
first_word-end zero (c ∷ t) at_space = refl
first_word-end (suc room) (c ∷ t) at_space = refl

first_word-cut :
    (room : ℕ) (w t : List ℕ)
    → IsWord w
    → length w ≤ room
    → IsCut t
    → first_word room (w ++ t) ≡ some w
unfolding first_word
first_word-cut room [] t i le cut = first_word-end room t cut
first_word-cut zero (c ∷ w) t i le cut = absurd (omega (arith, le))
first_word-cut (suc room) (c ∷ w) t (next_byte ne i) le cut =
    rw (==_ne c 32 ne, first_word-cut room w t i (omega (arith, le)) cut) refl

-- `execute` takes as the file's name the first word of the command line, of 32 bytes at most,
-- whatever spaces stand before it and whatever follows.
pub command_name-word :
    (before : ℕ) (name rest : List ℕ)
    → IsWord name
    → 0 < length name
    → length name ≤ 32
    → IsCut rest
    → command_name (spaces before ++ (name ++ rest)) ≡ some name
unfolding command_name
command_name-word before name rest i lt le cut =
    ap (first_word 32) (skip_spaces-lead before (name ++ rest) ∙ skip_spaces-word name rest i lt)
    ∙ first_word-cut 32 name rest i le cut
