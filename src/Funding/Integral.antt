-- ===== src/Funding/Integral.antt =====
-- `append` and `sum` of contracts/market/src/state/data_series.rs against the integral of the values.
use levana_perps.Number.Signed.{Signed}
use levana_perps.Prelude.{
  subst, lt→ltb, leb→le, ltb→ge, Bool-cases, inl, inr, if◌then◌else◌, ltb, leb, ℕ, ◌+◌, ◌-◌, ◌*◌,
  ◌≤◌, ◌<◌, ◌≡◌, refl, true, false, some, [], ◌∷◌, arith,
}
use levana_perps.Funding.Series.{last_until, DataSeries, last_before, DataPoint}
use levana_perps.Funding.Parts.{down, up}

-- The newest value counts for every nanosecond from its time to the end, the older ones until then.
-- Subtraction stops at 0.
abbrev pub earlier : ℕ → ℕ → ℕ
earlier a b = if leb a b then a else b

abbrev pub later : ℕ → ℕ → ℕ
later a b = if leb a b then b else a

abbrev pub integral : (Signed → ℕ) → ℕ → ℕ → DataSeries → ℕ
integral part start end [] = 0
integral part start end ((t, p) ∷ older) =
    part p.value * (end - later start t) + integral part start (earlier end t) older

-- The times fall from the newest entry on, and each entry's sum is that of the older one with the older
-- value for each nanosecond in between.
abbrev pub Follows : ℕ → DataPoint → DataSeries → Type 0
Follows t p [] = Unit {0}
Follows t p ((s, q) ∷ older) =
    (s < t)
    × (up p.prefix_sum + down q.prefix_sum + down q.value * (t - s)
        ≡ down p.prefix_sum + up q.prefix_sum + up q.value * (t - s))

abbrev pub IsSeries : DataSeries → Type 0
IsSeries [] = Unit {0}
IsSeries ((t, p) ∷ older) = Follows t p older × IsSeries older

-- The two parts of the sum at a time from an entry on.
abbrev at_time : (Signed → ℕ) → ℕ → ℕ × DataPoint → ℕ
at_time part time entry = part entry.1.prefix_sum + part entry.1.value * (time - entry.0)

-- The sums at two times differ by the integral.
abbrev Balanced : ℕ → ℕ → DataSeries → ℕ × DataPoint → ℕ × DataPoint → Type 0
Balanced start end series first last =
    at_time up end last + at_time down start first + integral down start end series
    ≡ at_time down end last + at_time up start first + integral up start end series

integral-empty :
    (part : Signed → ℕ) (start end : ℕ) (series : DataSeries)
    → end ≤ start
    → integral part start end series ≡ 0
integral-empty part start end [] h = refl
integral-empty part start end ((t, p) ∷ older) h =
    let nothing : end - later start t ≡ 0 = ground arith in
    rw (nothing, integral-empty part start (earlier end t) older (ground arith)) (omega arith)

module _ (time t : ℕ) (p : DataPoint) (older : DataSeries) {a : ℕ × DataPoint} where
  before_here : ltb t time ≡ true → last_before time ((t, p) ∷ older) ≡ some a → a ≡ (t, p)
  unfolding last_before
  before_here h e = ground (arith, h, e)

  before_older :
      ltb t time ≡ false
      → last_before time ((t, p) ∷ older) ≡ some a
      → last_before time older ≡ some a
  unfolding last_before
  before_older h e = ground (arith, h, e)

  until_here : leb t time ≡ true → last_until time ((t, p) ∷ older) ≡ some a → a ≡ (t, p)
  unfolding last_until
  until_here h e = ground (arith, h, e)

  until_older :
      leb t time ≡ false
      → last_until time ((t, p) ∷ older) ≡ some a
      → last_until time older ≡ some a
  unfolding last_until
  until_older h e = ground (arith, h, e)

-- Both times fall after the newest entry.
both_after :
    (start end t : ℕ) (p : DataPoint) (older : DataSeries)
    → start ≤ end
    → t ≤ start
    → Balanced start end ((t, p) ∷ older) (t, p) (t, p)
both_after start end t p older ordered here =
    let parted : end - t ≡ (start - t) + (end - later start t) = ground arith in
    let past : earlier end t ≤ start = ground arith in
    rw
      (
        parted,
        integral-empty up start (earlier end t) older past,
        integral-empty down start (earlier end t) older past,
      )
      (omega arith)

-- The entry before a time that the newest entry of the series follows.
start_before :
    (start end t : ℕ) (p : DataPoint) (older : DataSeries) (first last : ℕ × DataPoint)
    → start < t
    → t ≤ end
    → at_time up t last + down p.prefix_sum ≡ at_time down t last + up p.prefix_sum
    → Balanced start t older first last
    → Balanced start end ((t, p) ∷ older) first (t, p)
start_before start end t p older first last after within follows h =
    let from_t : later start t ≡ t = ground arith in
    let to_t : earlier end t ≡ t = ground arith in rw (from_t, to_t) (omega (arith, follows, h))

-- The newest entry before a time that an entry follows.
head_before :
    (start t : ℕ) (p : DataPoint) (older : DataSeries) {first : ℕ × DataPoint}
    → Follows t p older
    → last_until start older ≡ some first
    → (last : ℕ × DataPoint) × (last_before t older ≡ some last)
      × (at_time up t last + down p.prefix_sum ≡ at_time down t last + up p.prefix_sum)
unfolding last_until last_before
head_before start t p [] f h = cc
head_before start t p ((s, q) ∷ older) f h = ((s, q), rw (lt→ltb s t f.0) refl, omega (arith, f.1))

value_before :
    (t : ℕ) (p : DataPoint) (older : DataSeries) {last : ℕ × DataPoint}
    → Follows t p older
    → last_before t older ≡ some last
    → at_time up t last + down p.prefix_sum ≡ at_time down t last + up p.prefix_sum
unfolding last_before
value_before t p [] f h = cc
value_before t p ((s, q) ∷ older) f h =
    let this = before_here t s q older (lt→ltb s t f.0) h in rw this (omega (arith, f.1))

-- Both times are that of the newest entry.
both_at :
    (start end t : ℕ) (p : DataPoint) (older : DataSeries) (last : ℕ × DataPoint)
    → t ≤ start
    → end ≡ t
    → at_time up t last + down p.prefix_sum ≡ at_time down t last + up p.prefix_sum
    → start ≤ end
    → Balanced start end ((t, p) ∷ older) (t, p) last
both_at start end t p older last here same h ordered =
    let past : end ≤ start = omega (arith, same) in
    let none_left : start - t ≡ 0 = omega (arith, same) in
    rw
      (
        integral-empty up start end ((t, p) ∷ older) past,
        integral-empty down start end ((t, p) ∷ older) past,
        same,
        none_left,
      )
      (omega (arith, h))

-- The newest entry lies after the end.
both_before :
    (start end t : ℕ) (p : DataPoint) (older : DataSeries) (first last : ℕ × DataPoint)
    → end ≤ t
    → Balanced start end older first last
    → Balanced start end ((t, p) ∷ older) first last
both_before start end t p older first last beyond h =
    let nothing : end - later start t ≡ 0 = ground arith in
    let to_end : earlier end t ≡ end = ground arith in rw (nothing, to_end) (omega (arith, h))

pub balanced :
    (start end : ℕ) (series : DataSeries) (first last : ℕ × DataPoint)
    → start ≤ end
    → IsSeries series
    → last_until start series ≡ some first
    → last_before end series ≡ some last
    → Balanced start end series first last
unfolding last_until
balanced start end [] first last ordered s f l = cc
balanced start end ((t, p) ∷ older) first last ordered s f l = elim (Bool-cases (ltb t end)) [
  | inl within ↦ elim (Bool-cases (leb t start)) [
    | inl here ↦
        rw (before_here end t p older within l, until_here start t p older here f)
          (both_after start end t p older ordered (leb→le t start here))
    | inr after ↦
        let f' = until_older start t p older after f in
        let head = head_before start t p older s.0 f' in
        rw (before_here end t p older within l) (
          start_before start end t p older first head.0 (ground (arith, after))
            (ground (arith, within)) head.2
            (balanced start t older first head.0 (ground (arith, after)) s.1 f' head.1))
  ]
  | inr beyond ↦ elim (Bool-cases (leb t start)) [
    | inl here ↦
        let same : end ≡ t = ground (arith, here, beyond) in
        rw (until_here start t p older here f) (
          both_at start end t p older last (leb→le t start here) same
            (value_before t p older s.0 (
              subst (λ n. last_before n older ≡ some last) same
                (before_older end t p older beyond l)))
            ordered)
    | inr after ↦ both_before start end t p older first last (ltb→ge t end beyond) (
        balanced start end older first last ordered s.1 (until_older start t p older after f)
          (before_older end t p older beyond l))
  ]
]
