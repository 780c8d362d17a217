-- ===== src/Stream/Throttle.antt =====
-- `iperf_check_throttle` of iperf_api.c.
use mm_wave_tracker.Prelude.{
  ℕ, ◌≡◌, ◌≢◌, refl, sym, ◌∙◌, ap, false, List, [], ◌∷◌, Bool-cases, inl, inr,
}
use mm_wave_tracker.Prelude.Int.{truthy}
use mm_wave_tracker.Prelude.Double.{Double}
use mm_wave_tracker.Time.{IperfTime}
use mm_wave_tracker.Stream.{
  Stream, Transfer, fd_isset, is_below_rate, iperf_check_throttle, throttle_all,
}
use mm_wave_tracker.Stream.Sets.{isset-set_self, isset-set_ne, isset-clr_self, isset-clr_ne}

-- The light of a stream is green just when its socket is in a set.
abbrev pub IsLit : List ℕ → Stream → Type 0
IsLit set sp = truthy sp.green_light ≡ fd_isset sp.socket set

abbrev pub AllLit : List ℕ → List Stream → Type 0
AllLit set [] = Unit
AllLit set (sp ∷ sps) = IsLit set sp × AllLit set sps

-- No stream of a list has a socket.
abbrev pub Avoids : ℕ → List Stream → Type 0
Avoids s [] = Unit
Avoids s (sp ∷ sps) = (s ≢ sp.socket) × Avoids s sps

abbrev pub AllDistinct : List Stream → Type 0
AllDistinct [] = Unit
AllDistinct (sp ∷ sps) = Avoids sp.socket sps × AllDistinct sps

module _ {D : Type 0} (fp : Double D) (now : IperfTime) where
  check_throttle_lem :
      (sp : Stream) (t : Transfer)
      → truthy t.done ≡ false
      → let r = iperf_check_throttle fp sp now t in
        IsLit r.1.write_set r.0
        × (r.0.socket ≡ sp.socket)
        × (r.1.done ≡ t.done)
        × ((s : ℕ) → s ≢ sp.socket → fd_isset s r.1.write_set ≡ fd_isset s t.write_set)
  unfolding iperf_check_throttle
  check_throttle_lem sp t h = elim (Bool-cases (is_below_rate fp sp now t)) [
    | inl e ↦
        rw (h, iperf_check_throttle, e)
          (
            sym (isset-set_self sp.socket t.write_set),
            refl,
            refl,
            λ s n. isset-set_ne s sp.socket t.write_set n,
          )
    | inr e ↦
        rw (h, iperf_check_throttle, e)
          (
            sym (isset-clr_self sp.socket t.write_set),
            refl,
            refl,
            λ s n. isset-clr_ne s sp.socket t.write_set n,
          )
  ]

  -- What a stream that avoids a socket can see of a change of that socket's membership.
  isset-throttle_all :
      (s : ℕ) (sps : List Stream) (t : Transfer)
      → truthy t.done ≡ false
      → Avoids s sps
      → fd_isset s (throttle_all fp sps now t).1.write_set ≡ fd_isset s t.write_set
  unfolding throttle_all
  isset-throttle_all s [] t h a = refl
  isset-throttle_all s (sp ∷ sps) t h (n, a) =
      let (lit, same, d, others) = check_throttle_lem sp t h in
      isset-throttle_all s sps (iperf_check_throttle fp sp now t).1 (ap truthy d ∙ h) a ∙ others s n

  -- While the test is not done, `iperf_check_throttle` of all streams, which have different sockets,
  -- leaves each with a green light just when its socket is in the set of those that wait to write,
  -- and changes no other socket's membership.
  pub throttle_all-AllLit :
      (sps : List Stream) (t : Transfer)
      → truthy t.done ≡ false
      → AllDistinct sps
      → AllLit (throttle_all fp sps now t).1.write_set (throttle_all fp sps now t).0
        × ((s : ℕ)
            → Avoids s sps
            → fd_isset s (throttle_all fp sps now t).1.write_set ≡ fd_isset s t.write_set)
  unfolding throttle_all
  throttle_all-AllLit [] t h a = (tt, λ s v. refl)
  throttle_all-AllLit (sp ∷ sps) t h (a, as') =
      let (lit, same, d, others) = check_throttle_lem sp t h in
      let t1 = (iperf_check_throttle fp sp now t).1 in
      let (rest, _) = throttle_all-AllLit sps t1 (ap truthy d ∙ h) as' in
      (
        (
          lit
              ∙ ap (λ x. fd_isset x t1.write_set) same
              ∙ sym (isset-throttle_all sp.socket sps t1 (ap truthy d ∙ h) a)
              ∙ sym (ap (λ x. fd_isset x (throttle_all fp sps now t1).1.write_set) same),
          rest,
        ),
        λ s v. isset-throttle_all s (sp ∷ sps) t h v,
      )
