-- ===== src/Keyboard/Buffer.antt =====
-- The buffers never overflow, and the cursor stays on the screen.
use linux_like_os.Base.{
  ℕ, ◌-◌, ◌<◌, ◌≤◌, ◌≡◌, refl, ltb, ◌==◌, ◌||◌, for_range, for_range_inv, if_both, arith, pos, some,
  Bool-cases, Option-cases, inl, inr, subst, ltb→lt,
}
use linux_like_os.Port.{Device, Ports}
use linux_like_os.Screen.{Screen, del_c, clear_screen, update_cursor}
use linux_like_os.Screen.Invariant.{OnScreen, putc-OnScreen, del_c-OnScreen, clear_screen-OnScreen}
use linux_like_os.Terminal.{
  Console, current, typed, typed_count, poke_key, set_count, open_terminal, show_terminal,
}
use linux_like_os.Keyboard.{
  Outcome, returns, halts, with_screen, modifier, pressed_key, add_key, erase_cell, delete_key,
  enter_key, plain_key, act, with_sti, handle_scancode, keyboard_irq_handler,
}

-- No buffer holds more than its 128 bytes, and every cursor is on the screen.
pub record Bounded (c : Console) : Type 0 where
  pub counts : (t : ℕ) → c.count t ≤ 128
  pub on_screen : OnScreen c.screen

-- The console with which the handler returns, or halts the program.
abbrev pub after : Outcome → Console
after (returns c) = c
after (halts status c) = c

ports-OnScreen :
    (f : Ports → Ports) (s : Screen) → OnScreen s → OnScreen (record s { ports = f s.ports })
ports-OnScreen f s v = record { columns = v.columns; rows = v.rows; ends = v.ends }

pub open_terminal-OnScreen : (t : ℕ) (s : Screen) → OnScreen s → OnScreen (open_terminal (pos t) s)
unfolding open_terminal show_terminal update_cursor
open_terminal-OnScreen t s v =
    if_both OnScreen (ltb 2 t || (t == s.current_terminal)) v
      (record { columns = v.columns; rows = v.rows; ends = v.ends })

add_key-Bounded :
    (key : ℕ) (c : Console) → typed_count c < 128 → Bounded c → Bounded (add_key key c)
unfolding add_key
add_key-Bounded key c lt b = record {
  counts = λ t. ground (arith, b.counts t, lt);
  on_screen = putc-OnScreen key c.screen b.on_screen;
}

screen-Bounded :
    (f : Screen → Screen) (c : Console)
    → OnScreen (f c.screen)
    → Bounded c
    → Bounded (with_screen f c)
screen-Bounded f c v b = record { counts = b.counts; on_screen = v }

shorter-Bounded :
    (i key : ℕ) (c : Console) → i ≤ 128 → Bounded c → Bounded (set_count i (poke_key i key c))
shorter-Bounded i key c le b = record {
  counts = λ t. ground (arith, b.counts t, le);
  on_screen = b.on_screen;
}

erased-Bounded : (c : Console) → Bounded c → Bounded (for_range 5 0 erase_cell c)
unfolding erase_cell
erased-Bounded c b =
    for_range_inv (λ i d. Bounded d) erase_cell 5
      (λ i d lt h. screen-Bounded del_c d (del_c-OnScreen d.screen h.on_screen) h) 5 0 5 c refl
      (omega arith) b

delete_key-Bounded : (c : Console) → Bounded c → Bounded (delete_key c)
unfolding delete_key
delete_key-Bounded c b = if_both Bounded (typed_count c == 0) b (
    shorter-Bounded (typed_count c - 1) 0 _ (omega (arith, b.counts (current c))) (
      if_both Bounded (typed c (typed_count c - 1) == b'\t') (erased-Bounded c b)
        (screen-Bounded del_c c (del_c-OnScreen c.screen b.on_screen) b)))

enter_key-Bounded : (key : ℕ) (c : Console) → Bounded c → Bounded (enter_key key c)
unfolding enter_key
enter_key-Bounded key c b = elim (Bool-cases (ltb (typed_count c) 128)) [
  | inl e ↦ rw e (
      let k = add_key-Bounded key c (ltb→lt _ _ e) b in
      record { counts = k.counts; on_screen = k.on_screen })
  | inr e ↦ rw e b
]

plain_key-Bounded : (key : ℕ) (c : Console) → Bounded c → Bounded (plain_key key c)
unfolding plain_key
plain_key-Bounded key c b = elim (Bool-cases (ltb (typed_count c) 127)) [
  | inl e ↦ rw e (add_key-Bounded key c (omega (arith, ltb→lt _ _ e)) b)
  | inr e ↦ rw e b
]

record Safe (o : Outcome) : Type 0 where
  bounded : Bounded (after o)

safe : (o : Outcome) → Bounded (after o) → Safe o
safe o b = record { bounded = b }

act-Bounded : (scancode key : ℕ) (c : Console) → Bounded c → Safe (act scancode key c)
unfolding act
act-Bounded scancode key c b =
    let opened : (t : ℕ) → Safe (returns (with_screen (open_terminal (pos t)) c)) = λ t.
      safe (returns _) (
        screen-Bounded (open_terminal (pos t)) c (open_terminal-OnScreen t c.screen b.on_screen)
          b) in
    if_both Safe _ (safe (returns _) (delete_key-Bounded c b)) (
      if_both Safe _
        (safe (returns _)
          (screen-Bounded clear_screen c (clear_screen-OnScreen c.screen b.on_screen) b))
        (if_both Safe _ (safe (halts 42 c) b) (
          if_both Safe _ (safe (returns _) (enter_key-Bounded key c b)) (
            if_both Safe _ (opened 0) (
              if_both Safe _ (opened 1)
                (if_both Safe _ (opened 2) (safe (returns _) (plain_key-Bounded key c b))))))))

sti-Bounded : (o : Outcome) → Safe o → Safe (with_sti o)
sti-Bounded (returns c) b =
    safe (returns _) (record { counts = b.bounded.counts; on_screen = b.bounded.on_screen })
sti-Bounded (halts status c) b = b

-- The switch changes only flags.
modifier-Bounded :
    (scancode : ℕ) (c d : Console) → Bounded c → modifier scancode c ≡ some d → Bounded d
unfolding modifier
modifier-Bounded scancode c d b e = record {
  counts = λ t. ground (arith, b.counts t, e);
  on_screen = subst OnScreen (ground (arith, e)) b.on_screen;
}

handle_scancode-Bounded :
    (beyond : ℕ → ℕ → ℕ) (scancode : ℕ) (c : Console)
    → Bounded c
    → Safe (handle_scancode beyond scancode c)
unfolding handle_scancode
handle_scancode-Bounded beyond scancode c b = elim (Option-cases (modifier scancode c)) [
  | inl e ↦
      rw (e, handle_scancode)
        (if_both Safe _ (safe (returns c) b)
          (sti-Bounded _ (act-Bounded scancode (pressed_key beyond scancode c) c b)))
  | inr (d, e) ↦
      rw (e, handle_scancode)
        (let k = modifier-Bounded scancode c d b e in
          safe (returns _) (record { counts = k.counts; on_screen = k.on_screen }))
]

-- Whatever byte the keyboard sends and whatever stands behind the scancode table, the handler
-- leaves no buffer longer than 128 bytes and every cursor on the screen, if they were so before.
pub keyboard_irq_handler-Bounded :
    (beyond : ℕ → ℕ → ℕ) (dev : Device) (c : Console)
    → Bounded c
    → Bounded (after (keyboard_irq_handler beyond dev c))
unfolding keyboard_irq_handler
keyboard_irq_handler-Bounded beyond dev c b =
    (handle_scancode-Bounded beyond _ _ (record {
      counts = b.counts;
      on_screen = record {
        columns = b.on_screen.columns;
        rows = b.on_screen.rows;
        ends = b.on_screen.ends;
      };
    })).bounded
