-- ===== src/Stratum/Clients/Frame.antt =====
-- What `acceptedAt` leaves alone.
use qday_pool.Prelude.{
  ℕ, ◌+◌, ◌%◌, ◌*◌, ◌≡◌, refl, not, ◌&&◌, some, ltb, Bool-cases, Option-cases, inl, inr,
}
use qday_pool.Float.{Float}
use qday_pool.Stratum.Config.{Config, second}
use qday_pool.Stratum.Clients.{
  Client, Moment, u64, same_difficulty, reset_vardiff, since, is_fast, is_small_change,
  next_difficulty, end_window, in_window, start_window, accepted_at,
}

abbrev pub IsFrame : Client → Client → Type 0
IsFrame c d = (d.id ≡ c.id) × (d.ip ≡ c.ip) × (d.is_open ≡ c.is_open) × (d.template ≡ c.template)

end_window-IsFrame :
    (cfg : Config) (now : Moment) (shares elapsed : ℕ) (c : Client)
    → IsFrame c (end_window cfg now shares elapsed c).1
unfolding end_window reset_vardiff
end_window-IsFrame cfg now shares elapsed c =
    elim (Bool-cases
      (is_small_change (next_difficulty cfg c.vardiff_difficulty shares elapsed) c.difficulty)) [
        | inl small ↦ rw small (refl, refl, refl, refl)
        | inr large ↦ rw large (refl, refl, refl, refl)
      ]

in_window-IsFrame :
    (cfg : Config) (now started : Moment) (c : Client) → IsFrame c (in_window cfg now started c).1
unfolding in_window
in_window-IsFrame cfg now started c =
    let shares = (c.vardiff_shares + 1) % u64 in
    let elapsed = since now started in
    elim (Bool-cases (ltb elapsed (90 * second) && not (is_fast shares elapsed))) [
      | inl early ↦ rw early (refl, refl, refl, refl)
      | inr over ↦
          rw over (end_window-IsFrame cfg now shares elapsed (record c { vardiff_shares = shares }))
    ]

start_window-IsFrame : (now : Moment) (d : Float) (c : Client) → IsFrame c (start_window now d c).1
unfolding start_window
start_window-IsFrame now d c = (refl, refl, refl, refl)

pub accepted_at-IsFrame :
    (cfg : Config) (now : Moment) (d : Float) (c : Client) → IsFrame c (accepted_at cfg now d c).1
unfolding accepted_at
accepted_at-IsFrame cfg now d c =
    let c' : Client = record c { last_share = some now } in
    elim (Bool-cases (same_difficulty d c.last_diff)) [
      | inr other ↦ rw other (refl, refl, refl, refl)
      | inl same ↦ rw same (elim (Option-cases c.vardiff_started) [
        | inl idle ↦ rw (idle, accepted_at) (start_window-IsFrame now d c')
        | inr (started, e) ↦
            rw (e, accepted_at)
              (elim (Bool-cases (same_difficulty c.vardiff_difficulty d)) [
                | inr changed ↦ rw changed (start_window-IsFrame now d c')
                | inl kept ↦ rw kept (in_window-IsFrame cfg now started c')
              ])
      ])
    ]
