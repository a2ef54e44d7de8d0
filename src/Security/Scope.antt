-- ===== src/Security/Scope.antt =====
-- Whose records a listing shows, which ones, and in which order.
use mathlib.Core.List.{Memᴰ}
use secure_auth_x_pro.Prelude.{
  ℕ, ◌-◌, ◌≡◌, ◌≢◌, ◌∙◌, refl, fun_ext, min, Bool, true, ◌&&◌, Option, none, some, List, [], ◌∷◌,
  map, String, length, filter, All, All-weaken, All-take, All-drop, take, drop, length-take,
  length-drop, eq_iff, Option-cases, inl, inr, arith,
}
use secure_auth_x_pro.Schema.{Store, AuditLog, SecurityEvent}
use secure_auth_x_pro.Pagination.{resolve_pagination}
use secure_auth_x_pro.Pagination.Pages.{resolve_pagination_bounds}
use secure_auth_x_pro.Prisma.{Prisma, IsPrisma}
use secure_auth_x_pro.Prisma.Table.{count}
use secure_auth_x_pro.Prisma.Sorted.{
  NewestFirst, IsListing, All-listed, length-permute, filter-Meets, filter-All, length-filter,
  take-NewestFirst, drop-NewestFirst,
}
use secure_auth_x_pro.Http.{non_empty}
use secure_auth_x_pro.Exec.{Result, ok, err, library_error}
use secure_auth_x_pro.Repositories.Security.{
  build_where, audit_matches, event_matches, has_user, has_severity, has_action, action_filter,
  list_audit_logs, list_security_events,
}
use secure_auth_x_pro.Security.{
  ListQuery, ListResponse, SecurityEventEntry, list_params, to_audit_entry, to_event_entry,
  list_my_audit_logs, list_my_security_events,
}

-- The rows of a user that a query asks for.
abbrev pub asked_audit : String → ListQuery → AuditLog → Bool
asked_audit user_id query row =
    has_user (some user_id) row.user_id
    && has_severity query.severity row.severity
    && has_action (action_filter (non_empty query.kind)) row.action

abbrev pub asked_event : String → ListQuery → SecurityEvent → Bool
asked_event user_id query row =
    has_user (some user_id) row.user_id && has_severity query.severity row.severity

-- A page of a list of `total` rows: rows of the table, of this user, that are asked for, newest first, as
-- many as are left after those skipped, but no more than a page holds.
pub record IsOwnPage {A : Type 0} (user_id : String) (query : ListQuery) (owner : A → Option String)
    (asked : A → Bool) (created_at : A → ℕ) (t rows : List A) (total : ℕ) : Type 0 where
  pub stored : All (λ row. Memᴰ row t) rows
  pub own : All (λ row. owner row ≡ some user_id) rows
  pub wanted : All (λ row. asked row ≡ true) rows
  pub newest_first : NewestFirst created_at rows
  pub full :
      let r = resolve_pagination query.page query.page_size in
      length rows ≡ min r.page_size (total - r.skip)

-- A call that answers with the entries of such rows, with the number of all rows of the user that are
-- asked for, and writes nothing.
abbrev pub Shows :
    {A B : Type 0}
    → String
    → ListQuery
    → (A → Option String)
    → (A → Bool)
    → (A → ℕ)
    → (A → B)
    → List A
    → Store
    → Result (ListResponse B) × Store
    → Type 0
Shows {A} user_id query owner asked created_at entry t s answer =
    let r = resolve_pagination query.page query.page_size in
    (rows : List A) × (answer ≡ (
      ok (record {
        items = map entry rows;
        total = count asked t;
        page = r.page;
        page_size = r.page_size;
      }),
      s,
    ))
    × IsOwnPage user_id query owner asked created_at t rows (count asked t)

-- The answer to a listing of events: the client's exception where a type was asked for.
abbrev pub ShowsEvents :
    String
    → ListQuery
    → Option String
    → Store
    → Result (ListResponse SecurityEventEntry) × Store
    → Type 0
ShowsEvents user_id query none s answer =
    Shows user_id query (λ (row : SecurityEvent). row.user_id) (asked_event user_id query)
      (λ row. row.created_at) to_event_entry s.security_events s answer
ShowsEvents user_id query (some kind) s answer = answer ≡ (err library_error, s)

self_stored : {A : Type 0} (t : List A) → All (λ row. Memᴰ row t) t
self_stored [] = tt
self_stored (b ∷ t) = (Memᴰ.head refl, All-weaken t (λ x h. Memᴰ.tail h) (self_stored t))

module _ {A : Type 0} (key : A → ℕ) (p : A → Bool) (t l : List A) (listed : IsListing key p t l)
    (skip n : ℕ) where
  -- What holds of all rows that meet the test holds of those of a page.
  page-All : (P : A → Type 0) → All P (filter p t) → All P (take n (drop skip l))
  page-All P h = All-take P n (drop skip l) (All-drop P skip l (All-listed key P listed h))

  length-page : length (take n (drop skip l)) ≡ min n (count p t - skip)
  length-page =
      let all = length-permute listed.same_rows ∙ length-filter p t in
      rw (length-take n (drop skip l), length-drop skip l, all) refl

named : (user_id : String) → user_id ≢ "" → non_empty (some user_id) ≡ some user_id
named user_id h = ground (arith, eq_iff user_id "")

owner_lem :
    (user_id : String) (owner : Option String)
    → has_user (some user_id) owner ≡ true
    → owner ≡ some user_id
owner_lem user_id none h = cc
owner_lem user_id (some id) h = ground (arith, eq_iff id user_id)

three : (a b c : Bool) → (a && b && true && c) ≡ (a && b && c)
three a b c = ground arith

two : (a b : Bool) → (a && b && true) ≡ (a && b)
two a b = ground arith

module _ (user_id : String) (query : ListQuery) (h : user_id ≢ "") where
  audit_matches-asked :
      audit_matches (build_where (list_params user_id query)) ≡ asked_audit user_id query
  unfolding build_where audit_matches
  audit_matches-asked = fun_ext (λ row. rw (named user_id h) (
      three (has_user (some user_id) row.user_id) (has_severity query.severity row.severity)
        (has_action (action_filter (non_empty query.kind)) row.action)))

  event_matches-asked :
      event_matches (build_where (list_params user_id query)) ≡ asked_event user_id query
  unfolding build_where event_matches
  event_matches-asked = fun_ext (λ row.
      rw (named user_id h)
        (two (has_user (some user_id) row.user_id) (has_severity query.severity row.severity)))

  own_page :
      {A : Type 0} (owner : A → Option String) (asked : A → Bool) (key : A → ℕ) (t l : List A)
      → IsListing key asked t l
      → ((row : A) → asked row ≡ true → owner row ≡ some user_id)
      → let r = resolve_pagination query.page query.page_size in
        IsOwnPage user_id query owner asked key t (take r.take (drop r.skip l)) (count asked t)
  own_page owner asked key t l listed owned =
      let r = resolve_pagination query.page query.page_size in
      let page = page-All key asked t l listed r.skip r.take in
      let (_, _, _, same, _) = resolve_pagination_bounds query.page query.page_size in
      record {
        stored = page (λ row. Memᴰ row t) (filter-All asked _ t (self_stored t));
        own = page (λ row. owner row ≡ some user_id) (All-weaken _ owned (filter-Meets asked t));
        wanted = page (λ row. asked row ≡ true) (filter-Meets asked t);
        newest_first =
            take-NewestFirst key r.take _ (drop-NewestFirst key r.skip l listed.newest_first);
        full = rw (← same) (length-page key asked t l listed r.skip r.take);
      }

audit_owner :
    (user_id : String) (query : ListQuery) (row : AuditLog)
    → asked_audit user_id query row ≡ true
    → row.user_id ≡ some user_id
audit_owner user_id query row h = owner_lem user_id row.user_id (ground arith)

event_owner :
    (user_id : String) (query : ListQuery) (row : SecurityEvent)
    → asked_event user_id query row ≡ true
    → row.user_id ≡ some user_id
event_owner user_id query row h = owner_lem user_id row.user_id (ground arith)

module _ {db : Prisma} (laws : IsPrisma db) (user_id : String) (query : ListQuery) (s : Store)
    (h : user_id ≢ "") where
  audits_shown :
      Shows user_id query
        (λ (row : AuditLog). row.user_id)
        (asked_audit user_id query)
        (λ row. row.created_at)
        to_audit_entry
        s.audit_logs
        s
        (list_my_audit_logs db user_id query s)
  unfolding list_my_audit_logs list_audit_logs
  audits_shown =
      let r = resolve_pagination query.page query.page_size in
      let (l, listed, cut) =
        laws.finds_page AuditLog (λ row. row.created_at) (asked_audit user_id query) r.skip r.take
          s.audit_logs in
      (
        take r.take (drop r.skip l),
        rw
            (
              list_my_audit_logs,
              list_audit_logs,
              audit_matches-asked user_id query h,
              laws.counts,
              cut,
            )
            refl,
        own_page user_id query h (λ (row : AuditLog). row.user_id) (asked_audit user_id query)
            (λ row. row.created_at) s.audit_logs l listed (audit_owner user_id query),
      )

  no_action : non_empty query.kind ≡ none → (build_where (list_params user_id query)).action ≡ none
  unfolding build_where
  no_action e = rw e refl

  events_failed :
      (kind : String)
      → non_empty query.kind ≡ some kind
      → list_my_security_events db user_id query s ≡ (err library_error, s)
  unfolding list_my_security_events list_security_events build_where
  events_failed kind e = rw (list_my_security_events, list_security_events, e) refl

  events_shown :
      ShowsEvents user_id query
        (non_empty query.kind)
        s
        (list_my_security_events db user_id query s)
  unfolding list_my_security_events list_security_events
  events_shown =
      let r = resolve_pagination query.page query.page_size in
      let (l, listed, cut) =
        laws.finds_page SecurityEvent (λ row. row.created_at) (asked_event user_id query) r.skip
          r.take s.security_events in
      elim (Option-cases (non_empty query.kind)) [
        | inl e ↦ rw e (
          take r.take (drop r.skip l),
          rw
              (
                list_my_security_events,
                list_security_events,
                event_matches-asked user_id query h,
                no_action e,
                laws.counts,
                cut,
              )
              refl,
          own_page user_id query h (λ (row : SecurityEvent). row.user_id)
              (asked_event user_id query) (λ row. row.created_at) s.security_events l listed
              (event_owner user_id query),
        )
        | inr (kind, e) ↦ rw e (events_failed kind e)
      ]

-- The listings of a signed-in user: the entries are those of stored rows of that user only, of the
-- severity and with the action that are asked for, newest first and as many as the page holds of them,
-- with the number of all such rows, and nothing is written. A listing of security events fails with an
-- exception of the database client whenever a type is asked for.
pub listings-IsOwn :
    {db : Prisma}
    → IsPrisma db
    → (user_id : String) (query : ListQuery) (s : Store) → user_id ≢ ""
    → Shows user_id query
        (λ (row : AuditLog). row.user_id)
        (asked_audit user_id query)
        (λ row. row.created_at)
        to_audit_entry
        s.audit_logs
        s
        (list_my_audit_logs db user_id query s)
      × ShowsEvents user_id query
          (non_empty query.kind)
          s
          (list_my_security_events db user_id query s)
listings-IsOwn laws user_id query s h =
    (audits_shown laws user_id query s h, events_shown laws user_id query s h)
