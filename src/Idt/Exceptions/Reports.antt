-- ===== src/Idt/Exceptions/Reports.antt =====
-- What exception_handler of student-distrib/idt.c prints, and how the program ends.
use linux_like_os.Base.{
  ℕ, ◌≡◌, ◌≢◌, ◌<◌, ◌≤◌, ◌⊎◌, Option-cases, inl, inr, refl, arith, ◌==◌, if◌then◌else◌, if_both,
  Bool, true, false, Option, none, some, List, [], ◌∷◌,
}
use linux_like_os.Memory.{Mem}
use linux_like_os.Screen.{puts}
use linux_like_os.Screen.Printf.Laws.{IsPlain, printf-plain}
use linux_like_os.Idt.{sys_call}
use linux_like_os.Idt.Texts.{exception_text}
use linux_like_os.Process.{Kernel, Environment}
use linux_like_os.Process.Life.{Ending, halt}
use linux_like_os.Idt.Exceptions.{Handled, ignored, halted, exception_handler, on_screen}
use linux_like_os.Process.Status.{HasStatus, halt-Status}

plain_text : List ℕ → Bool
plain_text [] = true
plain_text (c ∷ t) =
    let rest = plain_text t in if c == 0 then false else if c == 37 then false else rest

plain_text-IsPlain : (t : List ℕ) → plain_text t ≡ true → IsPlain t
unfolding plain_text
plain_text-IsPlain [] e = tt
plain_text-IsPlain (c ∷ t) e =
    (ground (arith, e), ground (arith, e), plain_text-IsPlain t (ground (arith, e)))

-- The texts have no conversions.
record Plain (o : Option (List ℕ)) : Type 0 where
  plain : (t : List ℕ) → o ≡ some t → plain_text t ≡ true

Plain-some : (t : List ℕ) → plain_text t ≡ true → Plain (some t)
Plain-some t e = record { plain = λ u h. same t u h e }
  where
    same :
        (t u : List ℕ)
        → ◌≡◌ {A = Option (List ℕ)} (some t) (some u)
        → plain_text t ≡ true
        → plain_text u ≡ true
    same t u h e = cc

exception_text-Plain : (exception_id : ℕ) → Plain (exception_text exception_id)
unfolding exception_text plain_text
exception_text-Plain i = if_both Plain (i == 0) (Plain-some _ refl) (
    if_both Plain (i == 1) (Plain-some _ refl) (
      if_both Plain (i == 2) (Plain-some _ refl) (
        if_both Plain (i == 3) (Plain-some _ refl) (
          if_both Plain (i == 4) (Plain-some _ refl) (
            if_both Plain (i == 5) (Plain-some _ refl) (
              if_both Plain (i == 6) (Plain-some _ refl) (
                if_both Plain (i == 7) (Plain-some _ refl) (
                  if_both Plain (i == 8) (Plain-some _ refl) (
                    if_both Plain (i == 9) (Plain-some _ refl) (
                      if_both Plain (i == 10) (Plain-some _ refl) (
                        if_both Plain (i == 11) (Plain-some _ refl) (
                          if_both Plain (i == 12) (Plain-some _ refl) (
                            if_both Plain (i == 13) (Plain-some _ refl) (
                              if_both Plain (i == 14) (Plain-some _ refl) (
                                if_both Plain (i == 15) (Plain-some _ refl) (
                                  if_both Plain (i == 16) (Plain-some _ refl) (
                                    if_both Plain (i == 17) (Plain-some _ refl) (
                                      if_both Plain (i == 18) (Plain-some _ refl) (
                                        if_both Plain (i == 19) (Plain-some _ refl) (
                                          if_both Plain (i == 128) (Plain-some _ refl)
                                            (record { plain = λ t h. cc })))))))))))))))))))))

exception_text-some :
    (exception_id : ℕ)
    → (exception_id < 20) ⊎ (exception_id ≡ sys_call)
    → (text : List ℕ) × (exception_text exception_id ≡ some text)
unfolding exception_text
exception_text-some i h = elim (Option-cases (exception_text i)) [
  | inl e ↦ ground (arith, e, h)
  | inr p ↦ p
]

abbrev pub as_halted : Option Ending → Option Handled
as_halted none = none
as_halted (some ending) = some (halted ending)

exception_text-none :
    (exception_id : ℕ)
    → 20 ≤ exception_id
    → exception_id ≢ sys_call
    → exception_text exception_id ≡ none
unfolding exception_text
exception_text-none i le ne = ground (arith, le, ne)

pub handler-text :
    (env : Environment) (esp ebp before : ℕ) (stack : Mem) (i : ℕ) (k : Kernel) (m : Mem)
    (t : List ℕ)
    → exception_text i ≡ some t
    → exception_handler env esp ebp before stack i k m
      ≡ as_halted (halt env esp ebp before stack 111 (on_screen (puts t k.console.screen) k) m)
unfolding exception_handler
handler-text env esp ebp before stack i k m t e =
    rw
      (
        e,
        exception_handler,
        printf-plain t [] [] k.console.screen
            (plain_text-IsPlain t ((exception_text-Plain i).plain t e)),
      )
      (as_halted_lem (halt env esp ebp before stack 111 (on_screen (puts t k.console.screen) k) m))
  where
    as_halted_lem :
        (o : Option Ending)
        → elim o [ none ↦ none | some ending ↦ some (halted ending) ] ≡ as_halted o
    as_halted_lem none = refl
    as_halted_lem (some ending) = refl

pub handler-none :
    (env : Environment) (esp ebp before : ℕ) (stack : Mem) (i : ℕ) (k : Kernel) (m : Mem)
    → exception_text i ≡ none
    → exception_handler env esp ebp before stack i k m ≡ some ignored
unfolding exception_handler
handler-none env esp ebp before stack i k m e = rw (e, exception_handler) refl

-- Where a handled exception goes on in a parent, it has this status for it.
pub record Reported (text : List ℕ) (env : Environment) (esp ebp before : ℕ) (stack : Mem)
    (k : Kernel) (m : Mem) (r : Option Handled) : Type 0 where
  pub halts :
      r ≡ as_halted (halt env esp ebp before stack 111 (on_screen (puts text k.console.screen) k) m)
  pub status :
      HasStatus 256 (halt env esp ebp before stack 111 (on_screen (puts text k.console.screen) k) m)

-- For the exceptions 0 to 19 and for the system call's number, the handler prints the text of the
-- number as it stands and then ends the program as `halt` does with the status 111, so that the
-- parent sees 256; for every other number it returns.
pub exception_handler-Reported :
    (env : Environment) (esp ebp before : ℕ) (stack : Mem) (i : ℕ) (k : Kernel) (m : Mem)
    → ((i < 20) ⊎ (i ≡ sys_call)
        → (text : List ℕ) × (exception_text i ≡ some text)
          × Reported text env esp ebp before stack k m
              (exception_handler env esp ebp before stack i k m))
      × (20 ≤ i → i ≢ sys_call → exception_handler env esp ebp before stack i k m ≡ some ignored)
exception_handler-Reported env esp ebp before stack i k m = (
  λ h.
      let (text, e) = exception_text-some i h in
      (
        text,
        e,
        record {
          halts = handler-text env esp ebp before stack i k m text e;
          status =
              halt-Status env esp ebp before stack 111 (on_screen (puts text k.console.screen) k) m;
        },
      ),
  λ le ne. handler-none env esp ebp before stack i k m (exception_text-none i le ne),
)
