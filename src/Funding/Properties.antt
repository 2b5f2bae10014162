-- ===== src/Funding/Properties.antt =====
-- The series of contracts/market/src/state/data_series.rs: its invariant, and its sums.
use levana_perps.Cosmwasm.{IsDocumented, Cosmwasm}
use levana_perps.Number.Signed.{signed_sub, Signed}
use levana_perps.Prelude.{
  subst, Bool-cases, ltb, ltb→lt, ◌==◌, Ensures-bind, Ensures, context, not_found, context-eq-ok,
  Ensures-map, Ensures-then, ℕ, ◌+◌, ◌-◌, ◌*◌, ◌≤◌, ◌≡◌, inl, inr, true, [], ◌∷◌, arith,
}
use levana_perps.Prelude.Dict.{sum}
use levana_perps.Funding.Series.{
  save_point, prefix_at, DataSeries, try_load_last, last_until, append, sum_until, sum_between,
  last_before, DataPoint,
}
use levana_perps.Funding.Parts.{signed_sub_parts, sum_until_parts, down, up}
use levana_perps.Funding.Integral.{balanced, Follows, integral, IsSeries}
use levana_perps.Prelude.Int.{pos, ◌-ℤ◌}
use levana_perps.Number.Integers.{to_ℤ}

-- A new point after the newest one.
newer-IsSeries :
    (time t : ℕ) (value sum : Signed) (p : DataPoint) (older : DataSeries)
    → t ≤ time
    → up sum + down p.prefix_sum + down p.value * (time - t)
      ≡ down sum + up p.prefix_sum + up p.value * (time - t)
    → IsSeries ((t, p) ∷ older)
    → IsSeries (save_point time (record { prefix_sum = sum; value = value }) ((t, p) ∷ older))
unfolding save_point
newer-IsSeries time t value sum p older late grows s = elim (Bool-cases (ltb t time)) [
  | inl after ↦ rw after ((ltb→lt t time after, grows), s)
  | inr now ↦
      let same : t ≡ time = ground (arith, now, late) in
      let hit : t == time ≡ true = ground (arith, same) in
      let at_once : time - t ≡ 0 = omega (arith, same) in
      rw (now, hit)
        (
          subst (λ n. Follows n (record { prefix_sum = sum; value = value }) older) same
              (replaced older (omega (arith, rw at_once at grows)) s.0),
          s.1,
        )
]
  where
    replaced :
        (rest : DataSeries)
        → up sum + down p.prefix_sum ≡ down sum + up p.prefix_sum
        → Follows t p rest
        → Follows t (record { prefix_sum = sum; value = value }) rest
    replaced [] e f = tt
    replaced ((s, q) ∷ rest) e f = (f.0, omega (arith, e, f.1))

to_ℤ-parts :
    (r : Signed) (rise fall : ℕ) → up r + fall ≡ down r + rise → to_ℤ r ≡ pos rise -ℤ pos fall
unfolding ◌-ℤ◌
to_ℤ-parts r rise fall h = ground (arith, h)

module _ ⦃c : Cosmwasm⦄ (doc : IsDocumented c) where
  -- Appending, where it succeeds, keeps the series in order: the times fall from the newest point on,
  -- and each point's sum is that of the one before with the value of that one for each nanosecond in
  -- between.
  pub append-IsSeries :
      (time : ℕ) (value : Signed) (series : DataSeries)
      → IsSeries series
      → Ensures IsSeries (append time value series)
  unfolding append prefix_at try_load_last save_point
  append-IsSeries time value [] s = (tt, tt)
  append-IsSeries time value ((t, p) ∷ older) s =
      Ensures-bind _ IsSeries (sum_until time (t, p)) _ (sum_until_parts doc time t p)
        λ sum parts. newer-IsSeries time t value sum p older parts.0 parts.1 s

  -- The sum over a period of a series in order is the integral of its values, each of which counts for
  -- each nanosecond from its time to that of the next: exact, without rounding.
  pub sum_between_lem :
      (start end : ℕ) (series : DataSeries)
      → start ≤ end
      → IsSeries series
      → Ensures
          (λ r. to_ℤ r ≡ pos (integral up start end series) -ℤ pos (integral down start end series))
          (sum_between start end series)
  unfolding sum_between
  sum_between_lem start end series ordered s =
      let Q : Signed → Type 0 =
        λ r. to_ℤ r ≡ pos (integral up start end series) -ℤ pos (integral down start end series) in
      Ensures-then Q (context (last_until start series) not_found) _ λ first f.
        Ensures-then Q (context (last_before end series) not_found) _ λ last l.
          Ensures-bind _ Q (sum_until start first) _ (sum_until_parts doc start first.0 first.1)
            λ s_sum s_parts.
              Ensures-bind _ Q (sum_until end last) _ (sum_until_parts doc end last.0 last.1)
                λ e_sum e_parts.
                  Ensures-map _ Q (signed_sub e_sum s_sum) (signed_sub_parts doc e_sum s_sum)
                    λ r parts. to_ℤ-parts r _ _ (
                      omega (
                        arith,
                        parts,
                        s_parts.1,
                        e_parts.1,
                        balanced start end series first last ordered s (context-eq-ok _ _ f)
                            (context-eq-ok _ _ l),
                      ))
