-- ===== src/Terminal/Display.antt =====
-- The screens of the terminals: what is on display, and the pages that keep the others.
use linux_like_os.Base.{ℕ, ◌+◌, ◌-◌, ◌<◌, ◌≡◌, ◌==◌, if◌then◌else◌, arith, pos, inl, inr}
use linux_like_os.Memory.{memcpy}
use linux_like_os.Memory.Copy.{memcpy-copied, copied}
use linux_like_os.Screen.{Screen, update_cursor}
use linux_like_os.Terminal.{saved_page, vid_mem, show_terminal, open_terminal}

-- The byte at `offset` of the screen of terminal `t`: on display, or in its page.
abbrev pub shown : Screen → ℕ → ℕ → ℕ
shown s t offset =
    if t == s.current_terminal then s.video_mem offset else s.video_mem (saved_page t + offset)

-- Opening one of the three terminals puts it on display, and for no terminal changes what its
-- screen holds, where video memory holds bytes.
pub open_terminal-shown :
    (s : Screen) (t u offset : ℕ)
    → ((a : ℕ) → s.video_mem a < 256)
    → s.current_terminal < 3
    → t < 3
    → u < 3
    → offset < 0x1000
    → ((open_terminal (pos t) s).current_terminal ≡ t)
      × (shown (open_terminal (pos t) s) u offset ≡ shown s u offset)
unfolding open_terminal show_terminal update_cursor
open_terminal-shown s t u offset b hs ht hu ho =
    let saved = memcpy s.video_mem (saved_page s.current_terminal) 0 vid_mem in
    let one : (a : ℕ) → saved a ≡ copied s.video_mem (saved_page s.current_terminal) 0 vid_mem a =
      λ a.
        memcpy-copied s.video_mem (saved_page s.current_terminal) 0 vid_mem a b
          (inr (omega arith)) in
    let two : (a : ℕ)
        → memcpy saved 0 (saved_page t) vid_mem a ≡ copied saved 0 (saved_page t) vid_mem a =
      λ a.
        memcpy-copied saved 0 (saved_page t) vid_mem a
          (λ x. ground (arith, one x, b x, b (x - saved_page s.current_terminal)))
          (inl (omega arith)) in
    (
      opened,
      ground (
        arith,
        two offset,
        two (saved_page u + offset),
        one (saved_page t + offset),
        one (saved_page u + offset),
        hs,
        ht,
        hu,
        ho,
      ),
    )
  where
    opened : (open_terminal (pos t) s).current_terminal ≡ t
    opened = ground (arith, hs, ht)
