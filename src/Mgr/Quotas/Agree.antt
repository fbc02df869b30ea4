-- ===== src/Mgr/Quotas/Agree.antt =====
-- The live limits and the rows around UpdateQuotas (src/internal/mgr/mgr.go).
use lxc_hosting.Base.{
  ℕ, ◌≡◌, ◌≢◌, ◌∙◌, refl, sym, ap, subst, Bool, true, false, ◌&&◌, List, [], ◌∷◌, ltb, ◌==◌, Text,
  text_eq, text_eq_iff, Option, none, some, All, All-imp, All-first_where, Unique, first_where,
  update_where, Bool-cases, inl, inr, arith,
}
use lxc_hosting.Quota.Cpu.{CpuResult}
use lxc_hosting.Quota.Cpu
use lxc_hosting.Db.{User, Db, DbResult}
use lxc_hosting.Db
use lxc_hosting.Db.Users.{get_user_by_name, or_no_rows-ok, update_quotas}
use lxc_hosting.Db.Valid.{IsValid}
use lxc_hosting.Host.{Instance, Calls, on_success}
use lxc_hosting.Host.Lx.{set_cpu, set_mem, set_disk}
use lxc_hosting.Host.Laws.{IsLawful}
use lxc_hosting.Mgr.{State, Outcome, Done, ok, err, rollback_partial, db_error}
use lxc_hosting.Mgr.Quotas.{
  rollback, failing, change, chosen, commit, apply_quotas, update_quotas_live, quotas_of_user,
  quotas_checked, or_shrinks, settle, cpu_check,
}
use lxc_hosting.Mgr.Quotas.Reasons.{
  Reason, refuses_cpu, refuses_disk, Explained, apply_quotas-Explained,
}
use lxc_hosting.Mgr.Quotas.Effects.{
  Live, shown, with_cpu, with_mem, with_disk, Sets, set_cpu-Sets, set_mem-Sets, set_disk-Sets,
}

-- the limits that LXD should have for these quotas
abbrev pub wanted : ℕ → ℕ → ℕ → Live
wanted cpu mem_mb disk_gb = with_cpu cpu (
    with_mem mem_mb
      (with_disk disk_gb (record { cpu = none; allowance = none; memory = none; size = none })))

-- With unique keys, the row that is found is the only one with its key.
found-only :
    {K : Type 0} (key : User → K) (p : User → Bool) (us : List User) (u : User)
    → Unique key us
    → first_where p us ≡ some u
    → All (λ x. key x ≡ key u → x ≡ u) us
unfolding first_where
found-only key p [] u v e = tt
found-only key p (x ∷ us) u v e = elim (Bool-cases (p x)) [
  | inl t ↦
      let q : x ≡ u = ground (arith, t, e) in
      (
        λ k. q,
        All-imp (λ y. key x ≢ key y) (λ y. key y ≡ key u → y ≡ u) us
            (λ y n k. absurd (n (ap key q ∙ sym k))) v.0,
      )
  | inr t ↦
      let e' : first_where p us ≡ some u = ground (arith, t, e) in
      (
        λ k. absurd (All-first_where (λ y. key x ≢ key y) p us v.0 e' k),
        found-only key p us u v.1 e',
      )
]

module _ {S : Type 0} (h : Calls S) (view : S → Text → Option Instance) (w : IsLawful h view) where
  abbrev live : S → Text → Live
  live s n = shown (view s n)

  abbrev pub Agrees : S → User → Type 0
  Agrees s u = shown (view s u.name) ≡ wanted u.cpu u.mem_mb u.disk_gb

  -- Undone from where the instance has the limits `l`, it has the limits `start`; and other
  -- instances stay as they are in any case.
  record Back (n : Text) (start : Live) (undo : List (S → Bool × S)) (l : Live) : Type 0 where
    restores :
        (s : S) → live s n ≡ l → (rollback undo s).0 ≡ true → live (rollback undo s).1 n ≡ start
    calm : (s : S) (m : Text) → m ≢ n → view (rollback undo s).1 m ≡ view s m
    heard : (s : S) → w.heard (rollback undo s).1 ≡ true → w.heard s ≡ true

  Back-nil : (n : Text) (l : Live) → Back n l [] l
  unfolding rollback
  Back-nil n l = record { restores = λ s e q. e; calm = λ s m k. refl; heard = λ s k. k }

  Back-cons :
      (n : Text) (start l l' : Live) (g : Live → Live) (f : S → Bool × S)
      (undo : List (S → Bool × S))
      → Sets h view w n g f
      → g l' ≡ l
      → Back n start undo l
      → Back n start (f ∷ undo) l'
  unfolding rollback
  Back-cons n start l l' g f undo set inv back = record {
    restores = λ s e q.
        back.restores (f s).1 (set.done s (ground (arith, q)) ∙ ap g e ∙ inv) (ground (arith, q));
    calm = λ s m k. back.calm (f s).1 m k ∙ set.others s m k;
    heard = λ s k. set.heard s (back.heard (f s).1 k);
  }

  -- what an outcome promises of the limits
  abbrev Promise : {A : Type 0} → Live → Live → A → Outcome A → Live → Type 0
  Promise start goal v (ok a) l = (l ≡ goal) × (a ≡ v)
  Promise start goal v (err e) l = e ≢ rollback_partial → l ≡ start

  record Good {A : Type 0} (n : Text) (start goal : Live) (v : A) (s : S) (r : Outcome A × S)
      : Type 0 where
    others : (m : Text) → m ≢ n → view r.1 m ≡ view s m
    limits : w.heard r.1 ≡ true → Promise start goal v r.0 (live r.1 n)

  failing-Good :
      {A : Type 0} (n : Text) (start goal : Live) (v : A) (s : S) (c : Bool × S)
      → ((m : Text) → m ≢ n → view c.1 m ≡ view s m)
      → (c.0 ≡ true → w.heard c.1 ≡ true → live c.1 n ≡ start)
      → Good {A = A} n start goal v s (failing c)
  failing-Good n start goal v s (true, s1) o f = record { others = o; limits = λ t k. f refl t }
  failing-Good n start goal v s (false, s1) o f = record {
    others = o;
    limits = λ t k. absurd (k refl);
  }

  acted-Good :
      {A : Type 0} (n : Text) (start goal l l' : Live) (v : A) (undo : List (S → Bool × S)) (s : S)
      (c : Bool × S) (good : S → Outcome A × S)
      → Back n start undo l
      → (c.0 ≡ true → live c.1 n ≡ l')
      → (c.0 ≡ false → w.heard c.1 ≡ true → live c.1 n ≡ l)
      → ((m : Text) → m ≢ n → view c.1 m ≡ view s m)
      → ((s1 : S) → live s1 n ≡ l' → Good n start goal v s1 (good s1))
      → Good n start goal v s (on_success c good (λ s1. failing (rollback undo s1)))
  acted-Good n start goal l l' v undo s (true, s1) good b t f o k =
      let r = k s1 (t refl) in record { others = λ m q. r.others m q ∙ o m q; limits = r.limits }
  acted-Good n start goal l l' v undo s (false, s1) good b t f o k =
      failing-Good n start goal v s (rollback undo s1) (λ m q. b.calm s1 m q ∙ o m q)
        (λ q a. b.restores s1 (f refl (b.heard s1 a)) q)

  change-Good :
      {A : Type 0} (n : Text) (start goal l l' : Live) (v : A) (g g' : Live → Live) (on : Bool)
      (act back : S → Bool × S) (undo : List (S → Bool × S)) (s : S)
      (rest : List (S → Bool × S) → S → Outcome A × S)
      → Sets h view w n g act
      → Sets h view w n g' back
      → (on ≡ true → g l ≡ l')
      → (on ≡ true → g' l' ≡ l)
      → (on ≡ false → l ≡ l')
      → Back n start undo l
      → live s n ≡ l
      → ((undo' : List (S → Bool × S)) (s' : S)
          → Back n start undo' l'
          → live s' n ≡ l'
          → Good n start goal v s' (rest undo' s'))
      → Good n start goal v s (change on act back undo s rest)
  change-Good n start goal l l' v g g' false act back undo s rest a b e i z u q k =
      k undo s (rw (sym (z refl)) u) (q ∙ z refl)
  change-Good n start goal l l' v g g' true act back undo s rest a b e i z u q k =
      acted-Good n start goal l l' v undo s (act s) (rest (back ∷ undo)) u
        (λ t. a.done s t ∙ ap g q ∙ e refl) (λ t o. a.failed s t o ∙ q) (a.others s)
        (λ s1 t. k (back ∷ undo) s1 (Back-cons n start l l' g' back undo b (i refl) u) t)

  commit-Good :
      (db : Db) (u : User) (start goal : Live) (undo : List (S → Bool × S)) (s : S)
      → Back u.name start undo goal
      → live s u.name ≡ goal
      → Good u.name start goal
          (update_quotas db u.id u.cpu u.mem_mb u.disk_gb)
          s
          (commit h db u undo s)
  commit-Good db u start goal undo s b q =
      acted-Good u.name start goal goal goal (update_quotas db u.id u.cpu u.mem_mb u.disk_gb) undo s
        (h.write_db s) (λ s'. (ok (update_quotas db u.id u.cpu u.mem_mb u.disk_gb), s')) b
        (λ t. ap shown (w.db_same u.name s) ∙ q) (λ t o. ap shown (w.db_same u.name s) ∙ q)
        (λ m k. w.db_same m s) (λ s1 t. record { others = λ m k. refl; limits = λ o. (t, refl) })

  apply_quotas-Good :
      (db : Db) (u : User) (cpu mem_mb disk_gb : ℕ) (s : S)
      → Agrees s u
      → Good u.name
          (wanted u.cpu u.mem_mb u.disk_gb)
          (wanted (chosen u.cpu cpu) (chosen u.mem_mb mem_mb) (chosen u.disk_gb disk_gb))
          (update_quotas db u.id
            (chosen u.cpu cpu)
            (chosen u.mem_mb mem_mb)
            (chosen u.disk_gb disk_gb))
          s
          (apply_quotas h db u cpu mem_mb disk_gb s)
  unfolding apply_quotas
  apply_quotas-Good db u cpu mem_mb disk_gb s a =
      let start = wanted u.cpu u.mem_mb u.disk_gb in
      let l1 = wanted (chosen u.cpu cpu) u.mem_mb u.disk_gb in
      let l2 = wanted (chosen u.cpu cpu) (chosen u.mem_mb mem_mb) u.disk_gb in
      let goal = wanted (chosen u.cpu cpu) (chosen u.mem_mb mem_mb) (chosen u.disk_gb disk_gb) in
      let v =
        update_quotas db u.id (chosen u.cpu cpu) (chosen u.mem_mb mem_mb)
          (chosen u.disk_gb disk_gb) in
      change-Good u.name start goal start l1 v (with_cpu cpu) (with_cpu u.cpu) (ltb 0 cpu)
        (set_cpu h u.name cpu) (set_cpu h u.name u.cpu) [] s _ (set_cpu-Sets h view w u.name cpu)
        (set_cpu-Sets h view w u.name u.cpu) (λ e. rw e refl) (λ e. refl) (λ e. rw e refl)
        (Back-nil u.name start) a
        (λ undo1 s1 b1 q1.
          change-Good u.name start goal l1 l2 v (with_mem mem_mb) (with_mem u.mem_mb) (ltb 0 mem_mb)
            (set_mem h u.name mem_mb) (set_mem h u.name u.mem_mb) undo1 s1 _
            (set_mem-Sets h view w u.name mem_mb) (set_mem-Sets h view w u.name u.mem_mb)
            (λ e. rw e refl) (λ e. refl) (λ e. rw e refl) b1 q1
            (λ undo2 s2 b2 q2.
              change-Good u.name start goal l2 goal v (with_disk disk_gb) (with_disk u.disk_gb)
                (ltb 0 disk_gb) (set_disk h u.name disk_gb) (set_disk h u.name u.disk_gb) undo2 s2 _
                (set_disk-Sets h view w u.name disk_gb) (set_disk-Sets h view w u.name u.disk_gb)
                (λ e. rw e refl) (λ e. refl) (λ e. rw e refl) b2 q2
                (λ undo3 s3 b3 q3.
                  commit-Good db
                    (record u {
                      cpu = chosen u.cpu cpu;
                      mem_mb = chosen u.mem_mb mem_mb;
                      disk_gb = chosen u.disk_gb disk_gb;
                    })
                    start goal undo3 s3 b3 q3)))

  -- The row of the user is updated, and the instances of the others are as they were.
  update-Agrees :
      (s s' : S) (u : User) (cpu mem_mb disk_gb : ℕ) (us : List User)
      → live s' u.name ≡ wanted cpu mem_mb disk_gb
      → ((m : Text) → m ≢ u.name → view s' m ≡ view s m)
      → All (λ x. x.id ≡ u.id → x ≡ u) us
      → All (λ x. x.name ≡ u.name → x ≡ u) us
      → All (Agrees s) us
      → All (Agrees s') (
          update_where
            (λ x. x.id == u.id)
            (λ x. record x { cpu = cpu; mem_mb = mem_mb; disk_gb = disk_gb })
            us)
  unfolding update_where
  update-Agrees s s' u cpu mem_mb disk_gb [] l o i n a = tt
  update-Agrees s s' u cpu mem_mb disk_gb (x ∷ us) l o i n a =
      let rest = update-Agrees s s' u cpu mem_mb disk_gb us l o i.1 n.1 a.1 in
      elim (Bool-cases (x.id == u.id)) [
        | inl e ↦
            let same : x ≡ u = i.0 (ground (arith, e)) in
            rw e (ap (λ y. live s' y.name) same ∙ l, rest)
        | inr e ↦
            rw e (ap shown (o x.name (λ q. ground (arith, e, ap (λ y. y.id) (n.0 q)))) ∙ a.0, rest)
      ]

  -- Limits that are back where they were agree with the rows as they are.
  keep-Agrees :
      (s s' : S) (u : User) (us : List User)
      → live s' u.name ≡ wanted u.cpu u.mem_mb u.disk_gb
      → ((m : Text) → m ≢ u.name → view s' m ≡ view s m)
      → All (λ x. x.name ≡ u.name → x ≡ u) us
      → All (Agrees s) us
      → All (Agrees s') us
  keep-Agrees s s' u [] l o n a = tt
  keep-Agrees s s' u (x ∷ us) l o n a =
      let rest = keep-Agrees s s' u us l o n.1 a.1 in
      elim (Bool-cases (text_eq x.name u.name)) [
        | inl e ↦ (subst (Agrees s') (sym (n.0 ((text_eq_iff x.name u.name).0 e))) l, rest)
        | inr e ↦ (
          ap shown (o x.name (λ q. ground (arith, e, (text_eq_iff x.name u.name).1 q))) ∙ a.0,
          rest,
        )
      ]

  -- The rows after an outcome for the user: the new quotas after success; all as before after an
  -- error, for which there is a reason.
  abbrev pub UserRows : Db → User → ℕ → ℕ → ℕ → Done → Db → Type 0
  UserRows db u cpu mem_mb disk_gb (ok _) db' =
      ◌≡◌ db' (
        update_quotas db u.id (chosen u.cpu cpu) (chosen u.mem_mb mem_mb)
          (chosen u.disk_gb disk_gb))
  UserRows db u cpu mem_mb disk_gb (err e) db' = Reason h u cpu mem_mb disk_gb e × (db' ≡ db)

  -- Without such a user, that error is reported.
  abbrev pub Rows : Db → DbResult User → ℕ → ℕ → ℕ → Done → Db → Type 0
  Rows db (Db.ok u) cpu mem_mb disk_gb r db' = UserRows db u cpu mem_mb disk_gb r db'
  Rows db (Db.err e) cpu mem_mb disk_gb r db' = (r ≡ err (db_error e)) × (db' ≡ db)

  -- the rows, and LXD in agreement with them
  abbrev Ends : State S → User → ℕ → ℕ → ℕ → Done × State S → Type 0
  Ends m u cpu mem_mb disk_gb r =
      UserRows m.db u cpu mem_mb disk_gb r.0 r.1.db × All (Agrees r.1.sys) r.1.db.users

  settle-Ends :
      (m : State S) (u : User) (cpu mem_mb disk_gb : ℕ) (r : Outcome Db × S)
      → All (λ x. x.id ≡ u.id → x ≡ u) m.db.users
      → All (λ x. x.name ≡ u.name → x ≡ u) m.db.users
      → All (Agrees m.sys) m.db.users
      → Good u.name
          (wanted u.cpu u.mem_mb u.disk_gb)
          (wanted (chosen u.cpu cpu) (chosen u.mem_mb mem_mb) (chosen u.disk_gb disk_gb))
          (update_quotas m.db u.id
            (chosen u.cpu cpu)
            (chosen u.mem_mb mem_mb)
            (chosen u.disk_gb disk_gb))
          m.sys
          r
      → Explained h u cpu mem_mb disk_gb r.0
      → (settle h m r).0 ≢ err rollback_partial
      → w.heard (settle h m r).1.sys ≡ true
      → Ends m u cpu mem_mb disk_gb (settle h m r)
  unfolding update_quotas
  settle-Ends m u cpu mem_mb disk_gb (ok db, s) i n a g x k o =
      let l = g.limits o in
      (
        l.1,
        subst (λ d. All (Agrees s) d.users) (sym l.1)
            (update-Agrees m.sys s u (chosen u.cpu cpu) (chosen u.mem_mb mem_mb)
              (chosen u.disk_gb disk_gb) m.db.users l.0 g.others i n a),
      )
  settle-Ends m u cpu mem_mb disk_gb (err e, s) i n a g x k o = (
    (x, refl),
    keep-Agrees m.sys s u m.db.users (g.limits o (λ q. k (ap (λ x. err x) q))) g.others n a,
  )

  guarded-Ends :
      (b : Bool) (m : State S) (u : User) (cpu mem_mb disk_gb : ℕ) (r : Done × State S)
      → All (Agrees m.sys) m.db.users
      → (b ≡ true → (ltb 0 disk_gb && ltb disk_gb u.disk_gb) ≡ true)
      → (r.0 ≢ err rollback_partial → w.heard r.1.sys ≡ true → Ends m u cpu mem_mb disk_gb r)
      → (or_shrinks h b m r).0 ≢ err rollback_partial
      → w.heard (or_shrinks h b m r).1.sys ≡ true
      → Ends m u cpu mem_mb disk_gb (or_shrinks h b m r)
  guarded-Ends true m u cpu mem_mb disk_gb r a e f k o = ((refuses_disk (e refl), refl), a)
  guarded-Ends false m u cpu mem_mb disk_gb r a e f k o = f k o

  checked-Ends :
      (m : State S) (u : User) (cpu mem_mb disk_gb : ℕ) (c : CpuResult (Unit {0}))
      → All (λ x. x.id ≡ u.id → x ≡ u) m.db.users
      → All (λ x. x.name ≡ u.name → x ≡ u) m.db.users
      → Agrees m.sys u
      → All (Agrees m.sys) m.db.users
      → cpu_check h cpu ≡ c
      → (quotas_checked h m u cpu mem_mb disk_gb c).0 ≢ err rollback_partial
      → w.heard (quotas_checked h m u cpu mem_mb disk_gb c).1.sys ≡ true
      → Ends m u cpu mem_mb disk_gb (quotas_checked h m u cpu mem_mb disk_gb c)
  checked-Ends m u cpu mem_mb disk_gb (Cpu.err e) i n au a x k o = ((refuses_cpu e x, refl), a)
  checked-Ends m u cpu mem_mb disk_gb (Cpu.ok _) i n au a x k o =
      guarded-Ends (ltb 0 disk_gb && ltb disk_gb u.disk_gb) m u cpu mem_mb disk_gb
        (settle h m (apply_quotas h m.db u cpu mem_mb disk_gb m.sys)) a (λ q. q)
        (settle-Ends m u cpu mem_mb disk_gb (apply_quotas h m.db u cpu mem_mb disk_gb m.sys) i n a
          (apply_quotas-Good m.db u cpu mem_mb disk_gb m.sys au)
          (apply_quotas-Explained h u cpu mem_mb disk_gb m.db m.sys))
        k o

  user-Ends :
      (m : State S) (cpu mem_mb disk_gb : ℕ) (found : DbResult User)
      → ((u : User)
          → found ≡ Db.ok u
          → All (λ x. x.id ≡ u.id → x ≡ u) m.db.users
            × All (λ x. x.name ≡ u.name → x ≡ u) m.db.users
            × Agrees m.sys u)
      → All (Agrees m.sys) m.db.users
      → (quotas_of_user h m cpu mem_mb disk_gb found).0 ≢ err rollback_partial
      → w.heard (quotas_of_user h m cpu mem_mb disk_gb found).1.sys ≡ true
      → Rows m.db found cpu mem_mb disk_gb
          (quotas_of_user h m cpu mem_mb disk_gb found).0
          (quotas_of_user h m cpu mem_mb disk_gb found).1.db
        × All
            (Agrees (quotas_of_user h m cpu mem_mb disk_gb found).1.sys)
            (quotas_of_user h m cpu mem_mb disk_gb found).1.db.users
  user-Ends m cpu mem_mb disk_gb (Db.err e) f a k o = ((refl, refl), a)
  user-Ends m cpu mem_mb disk_gb (Db.ok u) f a k o =
      let g = f u refl in
      checked-Ends m u cpu mem_mb disk_gb (cpu_check h cpu) g.0 g.1 g.2 a refl k o

  -- UpdateQuotas for any name and any values, on valid rows with which the limits in LXD agree for
  -- every user, where LXD keeps to its documented behaviour, no response of LXD is lost, and the
  -- outcome is not an incomplete rollback. After success, the row of the user of that name has the
  -- new value of each quota that is given (not 0) and the old value of the others, and nothing else
  -- in the database is changed; after an error at any point, the database is as before, and the error
  -- has a reason: the name has no user, the CPU quota is refused, the disk would shrink, or one of the
  -- requests for the new values, or the UPDATE, fails in some state of the host. In each case the limits in LXD agree with the rows
  -- again for every user.
  pub update_quotas_live-Agrees :
      (m : State S) (name : Text) (cpu mem_mb disk_gb : ℕ)
      → IsValid m.db
      → All (Agrees m.sys) m.db.users
      → (update_quotas_live h m name cpu mem_mb disk_gb).0 ≢ err rollback_partial
      → w.heard (update_quotas_live h m name cpu mem_mb disk_gb).1.sys ≡ true
      → Rows m.db
          (get_user_by_name m.db name)
          cpu
          mem_mb
          disk_gb
          (update_quotas_live h m name cpu mem_mb disk_gb).0
          (update_quotas_live h m name cpu mem_mb disk_gb).1.db
        × All
            (Agrees (update_quotas_live h m name cpu mem_mb disk_gb).1.sys)
            (update_quotas_live h m name cpu mem_mb disk_gb).1.db.users
  unfolding update_quotas_live get_user_by_name
  update_quotas_live-Agrees m name cpu mem_mb disk_gb v a k o =
      user-Ends m cpu mem_mb disk_gb (get_user_by_name m.db name)
        (λ u q.
          (let row = or_no_rows-ok (first_where (λ u. text_eq u.name name) m.db.users) u q in
            (
              found-only (λ x. x.id) (λ u. text_eq u.name name) m.db.users u v.users.ids row,
              found-only (λ x. x.name) (λ u. text_eq u.name name) m.db.users u v.users.names row,
              All-first_where (Agrees m.sys) (λ u. text_eq u.name name) m.db.users a row,
            )))
        a k o
