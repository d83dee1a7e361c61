-- ===== src/Ftp/Reply.antt =====
-- What FTP_SendCmd of ftp/ftpApi.c leaves on the wire.
use cctvmonitor.Base.{
  ℕ, zero, suc, ◌+◌, ◌≤◌, length-drop, ◌-◌, ◌≡◌, ◌≢◌, ◌↔◌, refl, ap, Option, ◌∙◌, some, List, [],
  ◌∷◌, ◌++◌, length, length-append, take, drop, take-append-drop, Bytes, append_assoc, arith,
  take-length,
}
use cctvmonitor.Base.Int.{ℤ, pos}
use cctvmonitor.Ftp.{
  Sent, wrote, would_block, failed, Net, send_from, send_cmd, err_else, max_waits,
}

-- The bytes left are the end of those given, and none exactly where the result is 0.
abbrev Leaves : Bytes → ℤ × Bytes × List Sent → Type 0
Leaves bs (r, left, rs) = (front : Bytes) × (front ++ left ≡ bs) × ((r ≡ pos 0) ↔ (left ≡ []))

Leaves-some : (b : ℕ) (bs : Bytes) (rs : List Sent) → Leaves (b ∷ bs) (err_else, b ∷ bs, rs)
Leaves-some b bs rs = ([], refl, ((λ e. cc), (λ e. cc)))

Leaves-drop : (n : ℕ) (bs : Bytes) (r : ℤ × Bytes × List Sent) → Leaves (drop n bs) r → Leaves bs r
Leaves-drop n bs (r, left, rs) (front, e, iff) = (
  take n bs ++ front,
  append_assoc (take n bs) front left ∙ ap (λ s. take n bs ++ s) e ∙ take-append-drop n bs,
  iff,
)

Leaves-send_from : (waits : ℕ) (bs : Bytes) (rs : List Sent) → Leaves bs (send_from waits bs rs)
unfolding send_from
Leaves-send_from waits [] rs = ([], refl, ((λ e. refl), (λ e. refl)))
Leaves-send_from waits (b ∷ bs) [] = Leaves-some b bs []
Leaves-send_from waits (b ∷ bs) (wrote zero ∷ rs) = Leaves-some b bs rs
Leaves-send_from waits (b ∷ bs) (wrote (suc n) ∷ rs) =
    Leaves-drop (suc n) (b ∷ bs) (send_from waits (drop n bs) rs)
      (Leaves-send_from waits (drop n bs) rs)
Leaves-send_from zero (b ∷ bs) (would_block ∷ rs) = Leaves-some b bs rs
Leaves-send_from (suc waits) (b ∷ bs) (would_block ∷ rs) = Leaves-send_from waits (b ∷ bs) rs
Leaves-send_from waits (b ∷ bs) (failed ∷ rs) = Leaves-some b bs rs

-- More answers than bytes and waits: those behind them are not looked at, whatever they are.
send_from-more :
    (waits : ℕ) (bs : Bytes) (rs more : List Sent)
    → length bs + suc waits ≤ length rs
    → send_from waits bs (rs ++ more)
      ≡ ((send_from waits bs rs).0, (send_from waits bs rs).1, (send_from waits bs rs).2 ++ more)
unfolding send_from
send_from-more waits [] rs more h = refl
send_from-more waits (b ∷ bs) [] more h = absurd (omega arith)
send_from-more waits (b ∷ bs) (wrote zero ∷ rs) more h = refl
send_from-more waits (b ∷ bs) (wrote (suc n) ∷ rs) more h =
    send_from-more waits (drop n bs) rs more (omega (arith, length-drop n bs))
send_from-more zero (b ∷ bs) (would_block ∷ rs) more h = refl
send_from-more (suc waits) (b ∷ bs) (would_block ∷ rs) more h =
    send_from-more waits (b ∷ bs) rs more (omega arith)
send_from-more waits (b ∷ bs) (failed ∷ rs) more h = refl

front_taken :
    (bs front left : Bytes) → front ++ left ≡ bs → take (length bs - length left) bs ≡ front
front_taken bs front left e =
    let n : length bs - length left ≡ length front =
      omega (arith, ap length e, length-append front left) in
    rw (n, ← e) (take-length front left)

-- What FTP_SendCmd makes of the end of its loop.
abbrev with_answers : Bytes → Net → ℤ × Bytes × List Sent → Option (ℤ × Net)
with_answers cmd w (r, left, rs) =
    some (r, record w { sends = rs; wire = w.wire ++ take (length cmd - length left) cmd })

-- FTP_SendCmd of a command ends with the first answers of `send`, as many as the command has bytes and
-- 10001 more, whatever they are: what would come behind them (`more`) is not asked for and changes
-- nothing. It has then put a front part of the command on the wire behind what was there, and returns 0
-- exactly if that is the whole command.
pub send_cmd-Leaves :
    (cmd : Bytes) (w : Net) (more : List Sent)
    → cmd ≢ []
    → length cmd + suc max_waits ≤ length w.sends
    → (r : ℤ) × (w' : Net) × (left : Bytes) × (send_cmd cmd (record w { sends = w.sends ++ more })
        ≡ some (r, record w' { sends = w'.sends ++ more }))
      × (send_cmd cmd w ≡ some (r, w'))
      × (w'.wire ++ left ≡ w.wire ++ cmd)
      × ((r ≡ pos 0) ↔ (left ≡ []))
unfolding send_cmd
send_cmd-Leaves [] w more ne enough = absurd (ne refl)
send_cmd-Leaves (b ∷ bs) w more ne enough =
    let r = send_from max_waits (b ∷ bs) w.sends in
    let (front, e, iff) = Leaves-send_from max_waits (b ∷ bs) w.sends in
    let sent = front_taken (b ∷ bs) front r.1 e in
    (
      r.0,
      _,
      r.1,
      ap (with_answers (b ∷ bs) w) (send_from-more max_waits (b ∷ bs) w.sends more enough),
      refl,
      append_assoc w.wire (take (length (b ∷ bs) - length r.1) (b ∷ bs)) r.1
          ∙ ap (λ s. w.wire ++ s) (ap (λ s. s ++ r.1) sent ∙ e),
      iff,
    )
