-- ===== src/Db/Domains.antt =====
-- The domains table (src/internal/db/domain.go).
use Prim.Native.Nat.{compare, Ordering}
use lxc_hosting.Base.{
  ℕ, ◌+◌, Bool, true, false, ◌||◌, ◌&&◌, not, List, [], ◌∷◌, ◌++◌, ltb, ◌==◌, if◌then◌else◌, Text,
  text_eq, none, some, first_where, all_where, update_where, delete_where, has_row, sort_by,
}
use lxc_hosting.Address.Ports.{Ipv4}
use lxc_hosting.Db.{User, Domain, Db, DbResult, ok, err, constraint, domain_not_found}
use lxc_hosting.Db.Users.{or_no_rows}

-- The row is refused for a domain that is bound (UNIQUE) and for a user who is not there (the
-- foreign key).
unfoldable pub add_domain : Db → ℕ → Text → Bool → Text → DbResult (Domain × Db)
add_domain db user_id domain proxy_protocol now =
    let d : Domain = record {
      id = db.next_domain;
      user_id = user_id;
      domain = domain;
      proxy_protocol = proxy_protocol;
      created_at = now;
      updated_at = now;
    } in
    if has_row (λ x. text_eq x.domain domain) db.domains
    then err constraint
    else if has_row (λ u. u.id == user_id) db.users
    then ok (d, record db { domains = db.domains ++ d ∷ []; next_domain = db.next_domain + 1 })
    else err constraint

abbrev pub owned : ℕ → Text → Domain → Bool
owned user_id domain d = d.user_id == user_id && text_eq d.domain domain

unfoldable pub get_domain : Db → ℕ → Text → DbResult Domain
get_domain db user_id domain = or_no_rows (first_where (owned user_id domain) db.domains)

unfoldable pub get_domain_by_domain : Db → Text → DbResult Domain
get_domain_by_domain db domain = or_no_rows (first_where (λ d. text_eq d.domain domain) db.domains)

unfoldable pub set_domain_protocol : Db → ℕ → Bool → Text → Db
set_domain_protocol db id on now = record db {
  domains =
      update_where (λ d. d.id == id) (λ d. record d { proxy_protocol = on; updated_at = now })
        db.domains;
}

unfoldable pub list_domains : Db → ℕ → List Domain
list_domains db user_id =
    sort_by (λ d e. ltb d.id e.id) (all_where (λ d. d.user_id == user_id) db.domains)

unfoldable pub delete_domain : Db → ℕ → Text → DbResult Db
delete_domain db user_id domain =
    if has_row (owned user_id domain) db.domains
    then ok (record db { domains = delete_where (owned user_id domain) db.domains })
    else err domain_not_found

unfoldable pub domain_exists : Db → Text → Bool
domain_exists db domain = has_row (λ d. text_eq d.domain domain) db.domains

pub record DomainView : Type 0 where
  pub id : ℕ
  pub user_id : ℕ
  pub username : Text
  pub ip : Ipv4
  pub domain : Text
  pub proxy_protocol : Bool
  pub created_at : Text
  pub updated_at : Text

-- JOIN users ON u.id = d.user_id
unfoldable pub join : List User → List Domain → List DomainView
join users [] = []
join users (d ∷ ds) =
    let rest = join users ds in
    elim (first_where (λ u. u.id == d.user_id) users) [
      | none ↦ rest
      | some u ↦
          record {
            id = d.id;
            user_id = d.user_id;
            username = u.name;
            ip = u.ip;
            domain = d.domain;
            proxy_protocol = d.proxy_protocol;
            created_at = d.created_at;
            updated_at = d.updated_at;
          }
          ∷ rest
    ]

-- the order of texts, character by character
unfoldable pub text_lt : Text → Text → Bool
text_lt [] [] = false
text_lt [] (b ∷ t) = true
text_lt (a ∷ s) [] = false
text_lt (a ∷ s) (b ∷ t) =
    let rest = text_lt s t in
    elim (compare a b) [ Ordering.lt ↦ true | Ordering.eq ↦ rest | Ordering.gt ↦ false ]

-- ORDER BY d.updated_at DESC, d.id DESC
unfoldable pub newer : DomainView → DomainView → Bool
unfolding text_lt
newer x y =
    text_lt y.updated_at x.updated_at || (not (text_lt x.updated_at y.updated_at) && ltb y.id x.id)

unfoldable pub list_all_domains : Db → List DomainView
unfolding join newer
list_all_domains db = sort_by newer (join db.users db.domains)
