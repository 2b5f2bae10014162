-- ===== src/Funding/Series.antt =====
-- `DataSeries` of contracts/market/src/state/data_series.rs. A timestamp is its nanoseconds, and the
-- map holds its newest entry first.
use levana_perps.Cosmwasm.{Cosmwasm}
use levana_perps.Number.Signed.{Signed, signed_sub, new_positive, signed_add, signed_mul}
use levana_perps.Prelude.{
  ltb, ◌==◌, if◌then◌else◌, leb, panic, ◌>>=◌, timestamp_underflow, err, ok, Result, not_found,
  context, ℕ, ◌-◌, Option, none, some, List, [], ◌∷◌,
}

pub record DataPoint : Type 0 where
  pub prefix_sum : Signed
  pub value : Signed

abbrev pub DataSeries : Type 0
DataSeries = List (ℕ × DataPoint)

unfoldable pub try_load_last : DataSeries → Option (ℕ × DataPoint)
try_load_last [] = none
try_load_last (entry ∷ older) = some entry

-- `Timestamp::checked_sub`, the nanoseconds.
unfoldable pub elapsed : ℕ → ℕ → Result ℕ
elapsed later earlier = if leb earlier later then ok (later - earlier) else err timestamp_underflow

-- `Map::save`, in the order of the keys.
unfoldable pub save_point : ℕ → DataPoint → DataSeries → DataSeries
save_point time p [] = (time, p) ∷ []
save_point time p ((t, old) ∷ older) =
    if ltb t time
    then (time, p) ∷ (t, old) ∷ older
    else if t == time
    then (time, p) ∷ older
    else (t, old) ∷ save_point time p older

-- The newest entry up to a time, and the newest before it.
unfoldable pub last_until : ℕ → DataSeries → Option (ℕ × DataPoint)
last_until time [] = none
last_until time ((t, p) ∷ older) = if leb t time then some (t, p) else last_until time older

unfoldable pub last_before : ℕ → DataSeries → Option (ℕ × DataPoint)
last_before time [] = none
last_before time ((t, p) ∷ older) = if ltb t time then some (t, p) else last_before time older

module _ ⦃c : Cosmwasm⦄ where
  -- `Number::from` of a `u64`.
  unfoldable pub number_of : ℕ → Result Signed
  number_of n = do v ← context (c.dec_from_ratio n 1) panic; ok (new_positive v)

  -- The sum up to a time from a data point on.
  unfoldable pub sum_until : ℕ → ℕ × DataPoint → Result Signed
  unfolding elapsed number_of signed_mul signed_add
  sum_until time entry = do
    nanos ← elapsed time entry.0
    number ← number_of nanos
    elapsed_sum ← signed_mul entry.1.value number
    signed_add entry.1.prefix_sum elapsed_sum

  unfoldable pub prefix_at : ℕ → Option (ℕ × DataPoint) → Result Signed
  unfolding sum_until
  prefix_at time none = ok (new_positive 0)
  prefix_at time (some entry) = sum_until time entry

  unfoldable pub append : ℕ → Signed → DataSeries → Result DataSeries
  unfolding try_load_last prefix_at save_point
  append time value series = do
    prefix_sum ← prefix_at time (try_load_last series)
    ok (save_point time (record { prefix_sum = prefix_sum; value = value }) series)

  unfoldable pub sum_between : ℕ → ℕ → DataSeries → Result Signed
  unfolding last_until last_before sum_until signed_sub
  sum_between start end series = do
    start_entry ← context (last_until start series) not_found
    end_entry ← context (last_before end series) not_found
    start_prefix_sum ← sum_until start start_entry
    end_prefix_sum ← sum_until end end_entry
    signed_sub end_prefix_sum start_prefix_sum
