-- ===== src/Properties/Selection.antt =====
-- What the filters of the request listing ask for, stated apart from the query that applies them: the parameters of
-- GET /requests in app/api/v1/routers/requests.py.
use asset_pilot_fastapi.Enums.{RequestPriority-discrete, RequestStatus-discrete}
use asset_pilot_fastapi.Repositories.Queries.{Sql, at_least, at_most, matches_search, where_is}
use asset_pilot_fastapi.Repositories.Queries.RequestQueries.{
  RequestFilter, is_selected, is_searched,
}
use asset_pilot_fastapi.Repositories.{get_user}
use asset_pilot_fastapi.Models.{Request, User}
use asset_pilot_fastapi.Database.{Db, user_key}
use asset_pilot_fastapi.Table.{find}
use asset_pilot_fastapi.Prelude.{
  ℕ, Bool, String, Option, none, some, true, false, same, str_eq, str_eq_iff, formatted, ◌≡◌, ◌⊎◌,
  ◌≤◌, Option-cases, inl, inr, arith, ◌==◌, ==_iff, ◌↔◌, refl, ◌||◌,
}

-- The value is the one asked for, if one is asked for.
abbrev pub Equals : {A : Type 0} → Option A → A → Type 0
Equals none x = Unit
Equals (some value) x = x ≡ value

abbrev pub NotBefore : Option ℕ → ℕ → Type 0
NotBefore none day = Unit
NotBefore (some bound) day = bound ≤ day

abbrev pub NotAfter : Option ℕ → ℕ → Type 0
NotAfter none day = Unit
NotAfter (some bound) day = day ≤ bound

-- The text is in the name or in the email of the user; no text and the empty text ask for nothing.
abbrev pub Mentions : Sql → Option String → User → Type 0
Mentions sql none user = Unit
Mentions sql (some search) user =
    (search ≡ "")
    ⊎ ((sql.ilike (formatted "%" search "%") user.name ≡ true)
        ⊎ (sql.ilike (formatted "%" search "%") user.email ≡ true))

abbrev pub Passes : Sql → RequestFilter → Db → Request → Type 0
Passes sql f db r =
    Equals f.status r.status
    × Equals f.category_id r.category_id
    × Equals f.priority r.priority
    × NotBefore f.requested_from r.requested_from
    × NotAfter f.requested_to r.requested_to
    × (requester : User) × (get_user r.requester_id db ≡ some requester)
    × Mentions sql f.search requester

decided_iff : {P : Type 0} (d : Dec P) → (elim d [ yes p ↦ true | no p ↦ false ] ≡ true) ↔ P
decided_iff (yes p) = (λ h. p, λ h. refl)
decided_iff (no p) = (λ h. ground (arith, h), λ h. absurd (p h))

Equals-iff :
    {A : Type 0} (equal : A → A → Bool) (wanted : Option A) (x : A)
    → ((y : A) → (equal x y ≡ true) ↔ (x ≡ y))
    → (where_is equal wanted x ≡ true) ↔ Equals wanted x
Equals-iff equal none x h = (λ e. tt, λ e. refl)
Equals-iff equal (some value) x h = h value

NotBefore-iff : (b : Option ℕ) (day : ℕ) → (at_least b day ≡ true) ↔ NotBefore b day
NotBefore-iff none day = (λ e. tt, λ e. refl)
NotBefore-iff (some bound) day = (λ e. ground (arith, e), λ e. ground (arith, e))

NotAfter-iff : (b : Option ℕ) (day : ℕ) → (at_most b day ≡ true) ↔ NotAfter b day
NotAfter-iff none day = (λ e. tt, λ e. refl)
NotAfter-iff (some bound) day = (λ e. ground (arith, e), λ e. ground (arith, e))

or_iff : (a b : Bool) → ((a || b) ≡ true) ↔ ((a ≡ true) ⊎ (b ≡ true))
or_iff true b = (λ e. inl refl, λ e. refl)
or_iff false b = (λ e. inr e, λ e. elim e [ inl f ↦ ground (arith, f) | inr f ↦ f ])

Mentions-iff :
    (sql : Sql) (search : Option String) (user : User)
    → (matches_search sql search user.name user.email ≡ true) ↔ Mentions sql search user
Mentions-iff sql none user = (λ e. tt, λ e. refl)
Mentions-iff sql (some search) user =
    let (one, one') = or_iff (str_eq search "") (
      sql.ilike (formatted "%" search "%") user.name
      || sql.ilike (formatted "%" search "%") user.email) in
    let (two, two') =
      or_iff (sql.ilike (formatted "%" search "%") user.name)
        (sql.ilike (formatted "%" search "%") user.email) in
    (
      λ e. elim (one e) [ inl f ↦ inl ((str_eq_iff search "").0 f) | inr f ↦ inr (two f) ],
      λ e. one' (elim e [ inl f ↦ inl ((str_eq_iff search "").1 f) | inr f ↦ inr (two' f) ]),
    )

searched_iff :
    (sql : Sql) (search : Option String) (db : Db) (r : Request)
    → (is_searched sql search db r ≡ true) ↔ (
        (requester : User) × (get_user r.requester_id db ≡ some requester)
        × Mentions sql search requester)
unfolding is_searched get_user
searched_iff sql search db r = (
  λ h. elim (Option-cases (find user_key r.requester_id db.users)) [
    | inl e ↦ ground (arith, e, h)
    | inr (u, e) ↦ (u, e, (Mentions-iff sql search u).0 (ground (arith, e, h)))
  ],
  λ (u, e, m). ground (arith, e, (Mentions-iff sql search u).1 m),
)

-- The test of the query is passed exactly by the requests that the filters ask for.
pub is_selected-Passes :
    (sql : Sql) (f : RequestFilter) (db : Db) (r : Request)
    → (is_selected sql f db r ≡ true) ↔ Passes sql f db r
unfolding is_selected
is_selected-Passes sql f db r =
    let (on, on') =
      Equals-iff (same RequestStatus-discrete) f.status r.status
        (λ y. decided_iff (RequestStatus-discrete r.status y)) in
    let (category, category') =
      Equals-iff ◌==◌ f.category_id r.category_id (λ y. ==_iff r.category_id y) in
    let (urgent, urgent') =
      Equals-iff (same RequestPriority-discrete) f.priority r.priority
        (λ y. decided_iff (RequestPriority-discrete r.priority y)) in
    let (from, from') = NotBefore-iff f.requested_from r.requested_from in
    let (to, to') = NotAfter-iff f.requested_to r.requested_to in
    let (search, search') = searched_iff sql f.search db r in
    (
      λ h.
          let (requester, found, mentioned) = search (ground (arith, h)) in
          (
            on (ground (arith, h)),
            category (ground (arith, h)),
            urgent (ground (arith, h)),
            from (ground (arith, h)),
            to (ground (arith, h)),
            requester,
            found,
            mentioned,
          ),
      λ (a, b, c, d, e, requester, found, mentioned). ground (
        arith,
        on' a,
        category' b,
        urgent' c,
        from' d,
        to' e,
        search' (requester, found, mentioned),
      ),
    )
