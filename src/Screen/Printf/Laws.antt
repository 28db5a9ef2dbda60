-- ===== src/Screen/Printf/Laws.antt =====
-- What printf prints, and where it fails.
use linux_like_os.Base.{
  ℕ, suc, ◌+◌, ◌≡◌, ◌≢◌, refl, ap, ◌∙◌, ◌==◌, ==_ne, Option, none, some, List, [], ◌∷◌, ◌++◌,
  length, arith, if_both, Bool-cases, inl, inr, Option-cases, subst,
}
use native.Mathlib.Nat.{zero-add}
use linux_like_os.Screen.{Screen, putc, puts}
use linux_like_os.Screen.Invariant.{OnScreen, putc-OnScreen, puts-OnScreen}
use linux_like_os.Screen.Printf.{
  Arg, word, str, Mode, plain, conversion, State, state, take_word, take_text, step, printf_loop,
  printf, at_end,
}

-- Text without conversions and terminators.
abbrev pub IsPlain : List ℕ → Type 0
IsPlain [] = Unit {0}
IsPlain (c ∷ t) = (c ≢ 0) × (c ≢ 37) × IsPlain t

plain_loop :
    (t : List ℕ) (rest : List ℕ) (n : ℕ) (args : List Arg) (s : Screen)
    → IsPlain t
    → printf_loop (t ++ rest) n (state plain args s)
      ≡ printf_loop rest (n + length t) (state plain args (puts t s))
unfolding printf_loop step puts
plain_loop [] rest n args s h =
    let e : n ≡ n + 0 = omega arith in ap (λ k. printf_loop rest k (state plain args s)) e
plain_loop (c ∷ t) rest n args s h =
    let e : n + 1 + length t ≡ n + suc (length t) = omega arith in
    rw (==_ne c 0 h.0, ==_ne c 37 h.1)
      (plain_loop t rest (n + 1) args (putc c s) h.2
        ∙ ap (λ k. printf_loop rest k (state plain args (puts t (putc c s)))) e)

-- A format without conversions is printed as it stands, and its length returned.
pub printf-plain :
    (t : List ℕ) (behind : List ℕ) (args : List Arg) (s : Screen)
    → IsPlain t
    → printf (t ++ 0 ∷ behind) args s ≡ some (length t, puts t s)
unfolding printf
printf-plain t behind args s h =
    plain_loop t (0 ∷ behind) 0 args s h ∙ ap (λ k. some (k, puts t s)) (zero-add (length t))

-- A format that ends in `%` is read past its terminator.
pub printf_overruns :
    (t : List ℕ) (args : List Arg) (s : Screen)
    → IsPlain t
    → printf (t ++ 37 ∷ 0 ∷ []) args s ≡ none
unfolding printf step
printf_overruns t args s h = plain_loop t (37 ∷ 0 ∷ []) 0 args s h ∙ refl

-- What holds of the screen in every result.
abbrev Keeps : Option State → Type 0
Keeps none = Unit {0}
Keeps (some t) = OnScreen t.screen

take_word-Keeps :
    (show : ℕ → Screen → Screen) (args : List Arg) (s : Screen)
    → ((w : ℕ) → OnScreen (show w s))
    → Keeps (take_word show args s)
unfolding take_word
take_word-Keeps show [] s h = tt
take_word-Keeps show (word w ∷ args) s h = h w
take_word-Keeps show (str t ∷ args) s h = tt

take_text-Keeps : (args : List Arg) (s : Screen) → OnScreen s → Keeps (take_text args s)
unfolding take_text
take_text-Keeps [] s v = tt
take_text-Keeps (word w ∷ args) s v = tt
take_text-Keeps (str t ∷ args) s v = puts-OnScreen t s v

step-Keeps :
    (c : ℕ) (m : Mode) (args : List Arg) (s : Screen) → OnScreen s → Keeps (step c m args s)
unfolding step
step-Keeps c plain args s v = if_both Keeps (c == 37) v (putc-OnScreen c s v)
step-Keeps c (conversion alternate) args s v = if_both Keeps (c == 37) (putc-OnScreen 37 s v) (
    if_both Keeps (c == 35) v (
      if_both Keeps (c == 120) (take_word-Keeps _ args s (λ w. puts-OnScreen _ s v)) (
        if_both Keeps (c == 117) (take_word-Keeps _ args s (λ w. puts-OnScreen _ s v)) (
          if_both Keeps (c == 100) (take_word-Keeps _ args s (λ w. puts-OnScreen _ s v)) (
            if_both Keeps (c == 99) (take_word-Keeps _ args s (λ w. putc-OnScreen _ s v))
              (if_both Keeps (c == 115) (take_text-Keeps args s v) v))))))

some_screen :
    (n k : ℕ) (s t : Screen) → ◌≡◌ {A = Option (ℕ × Screen)} (some (n, s)) (some (k, t)) → s ≡ t
some_screen n k s t e = cc

no_screen : (k : ℕ) (s : Screen) → ◌≡◌ {A = Option (ℕ × Screen)} none (some (k, s)) → ⊥
no_screen k s e = cc

loop-OnScreen :
    (format : List ℕ) (n : ℕ) (t : State) (k : ℕ) (s : Screen)
    → OnScreen t.screen
    → printf_loop format n t ≡ some (k, s)
    → OnScreen s
unfolding printf_loop
loop-OnScreen [] n t k s v e = cc
loop-OnScreen (c ∷ format) n t k s v e = elim (Bool-cases (at_end t.mode c)) [
  | inl done ↦ subst OnScreen (some_screen n k t.screen s (rw done at e)) v
  | inr more ↦ elim (Option-cases (step c t.mode t.args t.screen)) [
    | inl fault ↦ absurd (no_screen k s (rw (more, fault) at e))
    | inr (t', goes) ↦
        loop-OnScreen format (n + 1) t' k s
          (subst Keeps goes (step-Keeps c t.mode t.args t.screen v)) (rw (more, goes) at e)
  ]
]

-- Whatever `printf` prints, with whatever arguments, the cursor stays on the screen.
pub printf-OnScreen :
    (format : List ℕ) (args : List Arg) (s : Screen) {n : ℕ} {s' : Screen}
    → OnScreen s
    → printf format args s ≡ some (n, s')
    → OnScreen s'
unfolding printf
printf-OnScreen format args s {n} {s'} v e = loop-OnScreen format 0 (state plain args s) n s' v e
