-- ===== src/Db/Counters/Totals.antt =====
-- The monthly totals over several samples (src/internal/db/traffic.go, ApplyTraffic).
use lxc_hosting.Base.{
  ℕ, ◌+◌, ◌≤◌, ◌≡◌, ◌≢◌, refl, ap, subst, List, [], ◌∷◌, ◌==◌, Text, text_eq_refl, text_eq_iff,
  first_where, update_where, arith, first_where-update_where, first_where-update_other,
  has_row-first_where,
}
use lxc_hosting.Db.{Traffic, Db, ok}
use lxc_hosting.Db.Users.{or_no_rows, or_no_rows-ok}
use lxc_hosting.Db.Counters.{get_traffic, advance, apply_traffic}

-- the counters of later samples, received and sent
abbrev pub Samples : Type 0
Samples = List (ℕ × ℕ)

unfoldable pub sample_all : Text → Samples → Traffic → Traffic
sample_all period [] t = t
sample_all period ((rx, tx) ∷ more) t = sample_all period more (advance period rx tx t)

-- no counter is below the one before it
abbrev pub Rising : ℕ → ℕ → Samples → Type 0
Rising rx tx [] = Unit
Rising rx tx ((rx', tx') ∷ more) = (rx ≤ rx') × (tx ≤ tx') × Rising rx' tx' more

-- A second sample of the same counters adds nothing.
pub advance_idem :
    (period : Text) (rx tx : ℕ) (t : Traffic)
    → advance period rx tx (advance period rx tx t) ≡ advance period rx tx t
unfolding advance
advance_idem period rx tx t = ground (arith, text_eq_refl period)

-- the counters of the last sample, or those from before
abbrev pub last_counters : ℕ → ℕ → Samples → ℕ × ℕ
last_counters rx tx [] = (rx, tx)
last_counters rx tx ((rx', tx') ∷ more) = last_counters rx' tx' more

-- Over samples whose counters never fall, the totals of the month grow by exactly what the counters
-- grew from the stored ones to those of the last sample, whatever the samples in between, and the
-- counters of the last sample are stored.
pub sample_all-exact :
    (period : Text) (s : Samples) (t : Traffic)
    → t.period ≡ period
    → Rising t.last_rx t.last_tx s
    → let u = sample_all period s t in
      let (rx, tx) = last_counters t.last_rx t.last_tx s in
      (u.download + t.last_rx ≡ t.download + rx)
      × (u.upload + t.last_tx ≡ t.upload + tx)
      × (u.last_rx ≡ rx)
      × (u.last_tx ≡ tx)
unfolding sample_all advance
sample_all-exact period [] t e h = (omega arith, omega arith, refl, refl)
sample_all-exact period ((rx, tx) ∷ more) t e h =
    let r = sample_all-exact period more (advance period rx tx t) refl h.2 in
    let same = (text_eq_iff t.period period).1 e in
    (ground (arith, r.0, same, h.0), ground (arith, r.1, same, h.1), r.2, r.3)

-- A sample of a user who has a row advances that row and no other one.
pub apply_traffic-row :
    (db db' : Db) (user_id : ℕ) (period : Text) (rx tx : ℕ) (t : Traffic)
    → get_traffic db user_id ≡ ok t
    → apply_traffic db user_id period rx tx ≡ ok db'
    → (get_traffic db' user_id ≡ ok (advance period rx tx t))
      × ((other : ℕ) → other ≢ user_id → get_traffic db' other ≡ get_traffic db other)
unfolding get_traffic apply_traffic
apply_traffic-row db db' user_id period rx tx t h e =
    let f = or_no_rows-ok (first_where (λ x. x.user_id == user_id) db.traffic) t h in
    let there = has_row-first_where (λ x. x.user_id == user_id) db.traffic f in
    let same : record db {
      traffic = update_where (λ x. x.user_id == user_id) (advance period rx tx) db.traffic;
    }
        ≡ db' =
      ground (arith, there, e) in
    (
      subst
          (λ d.
            or_no_rows (first_where (λ x. x.user_id == user_id) d.traffic)
            ≡ ok (advance period rx tx t))
          same
          (ap or_no_rows (
            first_where-update_where (λ x. x.user_id == user_id) (advance period rx tx) db.traffic
              (λ x. unfold advance in refl) f)),
      λ other n.
          subst
            (λ d.
              or_no_rows (first_where (λ x. x.user_id == other) d.traffic)
              ≡ or_no_rows (first_where (λ x. x.user_id == other) db.traffic))
            same
            (ap or_no_rows (
              first_where-update_other (λ x. x.user_id == other) (λ x. x.user_id == user_id)
                (advance period rx tx) db.traffic (λ x p. ground arith)
                (λ x p. unfold advance in ground arith))),
    )
