-- ===== src/Db/Audit/Retention.antt =====
-- The bound and the order of the audit log (src/internal/db/audit.go).
use mathlib.Core.List.{reverse, reverse-cons}
use lxc_hosting.Base.{
  ℕ, zero, suc, ◌+◌, ◌-◌, ◌<◌, ◌≤◌, ◌≡◌, refl, sym, ap, ◌∙◌, false, List, [], ◌∷◌, ◌++◌, leb, ltb,
  ◌==◌, Text, delete_where, delete_where_id, sort_by, insert_by, sort_by-All, length, length-append,
  length-drop, take, drop, arith, All, All-imp, All-append, Bool-cases, inl, inr,
}
use lxc_hosting.Db.{AuditLog, Db}
use lxc_hosting.Db.Audit.{
  audit_retention, min_id, drop_oldest, prune, add_audit_log, list_audit_log,
}

abbrev pub Ascending : List AuditLog → Type 0
Ascending [] = Unit
Ascending (a ∷ rows) = All (λ b. a.id < b.id) rows × Ascending rows

pub record IsLog (db : Db) : Type 0 where
  pub ordered : Ascending db.audit_log
  pub below : All (λ a. a.id < db.next_audit) db.audit_log
  pub bounded : length db.audit_log ≤ audit_retention

lt-min_id :
    (k : ℕ) (a : AuditLog) (rows : List AuditLog)
    → k < a.id
    → All (λ b. k < b.id) rows
    → k < min_id a rows
unfolding min_id
lt-min_id k a [] h t = h
lt-min_id k a (b ∷ rows) h t = ground (arith, lt-min_id k b rows t.0 t.1)

min_id-head :
    (a : AuditLog) (rows : List AuditLog) → All (λ b. a.id < b.id) rows → min_id a rows ≡ a.id
unfolding min_id
min_id-head a [] h = refl
min_id-head a (b ∷ rows) h = ground (arith, lt-min_id a.id b rows h.0 h.1)

drop_oldest-tail :
    (a : AuditLog) (rows : List AuditLog) → Ascending (a ∷ rows) → drop_oldest (a ∷ rows) ≡ rows
unfolding drop_oldest delete_where
drop_oldest-tail a rows h =
    ap (λ m. delete_where (λ x. x.id == m) (a ∷ rows)) (min_id-head a rows h.0)
    ∙ ground (
      arith,
      delete_where_id (λ x. x.id == a.id) rows
          (All-imp (λ b. a.id < b.id) (λ b. (b.id == a.id) ≡ false) rows (λ b p. ground arith) h.0),
    )

Ascending-snoc :
    (rows : List AuditLog) (a : AuditLog)
    → Ascending rows
    → All (λ b. b.id < a.id) rows
    → Ascending (rows ++ a ∷ [])
Ascending-snoc [] a h k = (tt, tt)
Ascending-snoc (b ∷ rows) a h k =
    (All-append (λ c. b.id < c.id) rows (a ∷ []) h.0 (k.0, tt), Ascending-snoc rows a h.1 k.1)

-- Past the cap exactly the oldest entry goes.
prune-drop :
    (rows : List AuditLog)
    → Ascending rows
    → length rows ≤ audit_retention + 1
    → prune rows ≡ drop (length rows - audit_retention) rows
unfolding prune
prune-drop [] h k = refl
prune-drop (a ∷ rows) h k = elim (Bool-cases (leb (length (a ∷ rows)) audit_retention)) [
  | inl e ↦
      let z : length (a ∷ rows) - audit_retention ≡ 0 = ground arith in
      rw e (sym (ap (λ n. drop n (a ∷ rows)) z))
  | inr e ↦
      let z : length (a ∷ rows) - audit_retention ≡ 1 = ground arith in
      rw e (drop_oldest-tail a rows h ∙ sym (ap (λ n. drop n (a ∷ rows)) z))
]

drop-Ascending : (n : ℕ) (rows : List AuditLog) → Ascending rows → Ascending (drop n rows)
drop-Ascending zero rows h = h
drop-Ascending (suc n) [] h = tt
drop-Ascending (suc n) (a ∷ rows) h = drop-Ascending n rows h.1

drop-All : (P : AuditLog → Type 0) (n : ℕ) (rows : List AuditLog) → All P rows → All P (drop n rows)
drop-All P zero rows h = h
drop-All P (suc n) [] h = tt
drop-All P (suc n) (a ∷ rows) h = drop-All P n rows h.1

abbrev pub entry : Db → Text → Text → Text → AuditLog
entry db actor action now = record {
  id = db.next_audit;
  actor = actor;
  action = action;
  created_at = now;
}

add_rows :
    (db : Db) (actor action now : Text)
    → IsLog db
    → (add_audit_log db actor action now).audit_log ≡ (
        let rows = db.audit_log ++ entry db actor action now ∷ [] in
        drop (length rows - audit_retention) rows)
unfolding add_audit_log
add_rows db actor action now v =
    prune-drop (db.audit_log ++ entry db actor action now ∷ [])
      (Ascending-snoc db.audit_log (entry db actor action now) v.ordered v.below)
      (omega (arith, length-append db.audit_log (entry db actor action now ∷ []), v.bounded))

add_next :
    (db : Db) (actor action now : Text)
    → (add_audit_log db actor action now).next_audit ≡ db.next_audit + 1
unfolding add_audit_log
add_next db actor action now = refl

-- A new entry is written behind the others; past 5000 entries the oldest one goes, and only that.
-- The log stays ordered, bounded and below the next id.
pub add_audit_log-IsLog :
    (db : Db) (actor action now : Text)
    → IsLog db
    → IsLog (add_audit_log db actor action now)
      × ((add_audit_log db actor action now).audit_log ≡ (
          let rows = db.audit_log ++ entry db actor action now ∷ [] in
          drop (length rows - audit_retention) rows))
add_audit_log-IsLog db actor action now v =
    let e = entry db actor action now in
    let rows = db.audit_log ++ e ∷ [] in
    let n = length rows - audit_retention in
    let same = add_rows db actor action now v in
    (
      record {
        ordered = rw same (drop-Ascending n rows (Ascending-snoc db.audit_log e v.ordered v.below));
        below =
            rw (same, add_next)
              (drop-All (λ a. a.id < db.next_audit + 1) n rows
                (All-append (λ a. a.id < db.next_audit + 1) db.audit_log (e ∷ [])
                  (All-imp (λ a. a.id < db.next_audit) (λ a. a.id < db.next_audit + 1) db.audit_log
                    (λ a p. omega arith) v.below)
                  (omega arith, tt)));
        bounded = rw same (omega (arith, length-drop n rows));
      },
      same,
    )

insert_last :
    (a : AuditLog) (rows : List AuditLog)
    → All (λ b. a.id < b.id) rows
    → insert_by (λ x y. ltb y.id x.id) a rows ≡ rows ++ a ∷ []
unfolding insert_by
insert_last a [] h = refl
insert_last a (b ∷ rows) h = ground (arith, insert_last a rows h.1)

sort-reverse :
    (rows : List AuditLog) → Ascending rows → sort_by (λ x y. ltb y.id x.id) rows ≡ reverse rows
unfolding sort_by
sort-reverse [] h = refl
sort-reverse (a ∷ rows) h =
    insert_last a (sort_by (λ x y. ltb y.id x.id) rows)
      (sort_by-All (λ x y. ltb y.id x.id) (λ b. a.id < b.id) rows h.0)
    ∙ ap (λ l. l ++ a ∷ []) (sort-reverse rows h.1)
    ∙ sym (reverse-cons a rows)

-- The chunks of the audit page are the log backwards, newest entry first.
pub list_audit_log-reverse :
    (db : Db) (offset limit : ℕ)
    → IsLog db
    → list_audit_log db offset limit ≡ take limit (drop offset (reverse db.audit_log))
unfolding list_audit_log
list_audit_log-reverse db offset limit v =
    ap (λ l. take limit (drop offset l)) (sort-reverse db.audit_log v.ordered)
