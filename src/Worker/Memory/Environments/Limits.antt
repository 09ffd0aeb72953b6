-- ===== src/Worker/Memory/Environments/Limits.antt =====
-- At most twenty environments of an app, no two of one name.
use app_health.Prelude.{
  ℕ, ◌≡◌, refl, sym, ◌∙◌, Bool, true, false, not, ◌&&◌, ◌||◌, List, [], ◌∷◌, ◌++◌, none, some, leb,
  filter-append, append-nil, any, length, length-append, arith, Bool-cases, Option-cases, inl, inr,
  and_parts, and_true, or_parts, missing_when,
}
use app_health.Js.Strings.{Text, same_text}
use app_health.Js.Strings.Equality.{same_text→eq, same_text_refl}
use app_health.Js.Maps.{Dict, get, values, values-set_new}
use app_health.Worker.Memory.Keys.{KeyStore}
use app_health.Worker.Memory.Environments.{
  EnvironmentV1, new_environment, create_environment, list_environments, is_of_app, is_named,
  find_named, resolve_listed, create_environment_key, max_environments_per_app,
}
use app_health.Worker.Memory.Environments.Interleaving.{
  EnvironmentRead, EnvironmentState, EnvironmentCall, start_resolve, resume_resolve,
  create_with_key, resume, call_environments, call_all_environments, is_fresh, is_current,
  is_undisturbed, Grows, Grows-self, create_environment-Grows, AllRead, AllRead-Grows,
  AllRead-start, current_listed,
}

-- No two environments of the list have one name.
abbrev pub distinct_names : List EnvironmentV1 → Bool
distinct_names [] = true
distinct_names (e ∷ es) = not (any (is_named e.name) es) && distinct_names es

unfoldable pub is_orderly : Text → Dict EnvironmentV1 → Bool
is_orderly app_id environments =
    let here = list_environments environments app_id in
    leb (length here) max_environments_per_app && distinct_names here

any-append_one :
    (p : EnvironmentV1 → Bool) (es : List EnvironmentV1) (e : EnvironmentV1)
    → any p (es ++ e ∷ []) ≡ (any p es || p e)
any-append_one p [] e = elim (Bool-cases (p e)) [ inl h ↦ rw h refl | inr h ↦ rw h refl ]
any-append_one p (d ∷ es) e = elim (Bool-cases (p d)) [
  | inl h ↦ rw h refl
  | inr h ↦ rw h (any-append_one p es e)
]

same_text_sym : (a b : Text) → same_text a b ≡ true → same_text b a ≡ true
same_text_sym a b h = rw (same_text→eq a b h) (same_text_refl b)

distinct_names-append :
    (es : List EnvironmentV1) (e : EnvironmentV1)
    → any (is_named e.name) es ≡ false
    → distinct_names es ≡ true
    → distinct_names (es ++ e ∷ []) ≡ true
distinct_names-append [] e h k = refl
distinct_names-append (d ∷ es) e h k =
    let (apart, others) = or_parts (is_named e.name d) (any (is_named e.name) es) h in
    let (once, rest) = and_parts (not (any (is_named d.name) es)) (distinct_names es) k in
    let unlike : is_named d.name e ≡ false = elim (Bool-cases (is_named d.name e)) [
      | inl same ↦
          let impossible : true ≡ false = sym (same_text_sym e.name d.name same) ∙ apart in
          ground arith
      | inr differs ↦ differs
    ] in
    rw (any-append_one (is_named d.name) es e, unlike, distinct_names-append es e others rest)
      (elim (Bool-cases (any (is_named d.name) es)) [
        | inl there ↦ let impossible : false ≡ true = rw there at once in ground arith
        | inr missing ↦ rw missing refl
      ])

find_named-none :
    (name : Text) (es : List EnvironmentV1)
    → find_named name es ≡ none
    → any (is_named name) es ≡ false
unfolding find_named
find_named-none name [] h = refl
find_named-none name (e ∷ es) h = elim (Bool-cases (is_named name e)) [
  | inl here ↦ let impossible : some e ≡ none = rw here at h in ground arith
  | inr there ↦ rw there (find_named-none name es (rw there at h))
]

-- What both ways to create an environment check leaves the app orderly.
is_orderly-create_environment :
    (app : Text) (environments : Dict EnvironmentV1) (app_id name : Text) (now : ℕ) (id : Text)
    → get id environments ≡ none
    → leb max_environments_per_app (length (list_environments environments app_id)) ≡ false
    → any (is_named name) (list_environments environments app_id) ≡ false
    → is_orderly app environments ≡ true
    → is_orderly app (create_environment environments app_id name now id).1 ≡ true
unfolding is_orderly create_environment
is_orderly-create_environment app environments app_id name now id fresh room unnamed h =
    let e = new_environment id app_id name now in
    let old = list_environments environments app in
    let (few, once) =
      and_parts (leb (length old) max_environments_per_app) (distinct_names old) h in
    let listed = filter-append (is_of_app app) (values environments) e in
    rw (values-set_new id e environments fresh, listed)
      (elim (Bool-cases (same_text app_id app)) [
        | inr other ↦ rw (other, append-nil old) h
        | inl its_own ↦
            let same = same_text→eq app_id app its_own in
            let room' : leb max_environments_per_app (length old) ≡ false = rw same at room in
            let unnamed' : any (is_named name) old ≡ false = rw same at unnamed in
            let longer = length-append old (e ∷ []) in
            rw its_own (
              and_true (leb (length (old ++ e ∷ [])) max_environments_per_app)
                (distinct_names (old ++ e ∷ [])) (ground arith)
                (distinct_names-append old e unnamed' once))
      ])

-- The same of a call that goes on with the list of what there is now.
resolve_listed-is_orderly :
    (app : Text) (environments : Dict EnvironmentV1) (listed : List EnvironmentV1)
    (app_id name : Text) (now : ℕ) (id : Text)
    → get id environments ≡ none
    → list_environments environments app_id ≡ listed
    → is_orderly app environments ≡ true
    → is_orderly app (resolve_listed listed environments app_id name now id).1 ≡ true
unfolding create_environment
resolve_listed-is_orderly app environments listed app_id name now id fresh current h =
    elim (Option-cases (find_named name listed)) [
      | inr (existing, found) ↦ rw found h
      | inl missing ↦ rw missing (elim (Bool-cases (leb max_environments_per_app (length listed))) [
        | inl full ↦ rw full h
        | inr room ↦ rw room (
            is_orderly-create_environment app environments app_id name now id fresh
              (rw current room) (rw current (find_named-none name listed missing)) h)
      ])
    ]

resolve_listed-Grows :
    (environments : Dict EnvironmentV1) (listed : List EnvironmentV1) (app_id name : Text) (now : ℕ)
    (id : Text)
    → get id environments ≡ none
    → Grows environments (resolve_listed listed environments app_id name now id).1
unfolding create_environment
resolve_listed-Grows environments listed app_id name now id fresh =
    elim (Option-cases (find_named name listed)) [
      | inr (existing, found) ↦ rw found (Grows-self environments)
      | inl missing ↦ rw missing (elim (Bool-cases (leb max_environments_per_app (length listed))) [
        | inl full ↦ rw full (Grows-self environments)
        | inr room ↦ rw room (create_environment-Grows environments app_id name now id fresh)
      ])
    ]

record Inv (app : Text) (state : EnvironmentState) : Type 0 where
  orderly : is_orderly app state.environments ≡ true
  read : AllRead state.environments state.reads

resume-Inv :
    (app : Text) (state : EnvironmentState) (id : Text) (reads : List EnvironmentRead)
    → state.reads ≡ reads
    → get id state.environments ≡ none
    → is_current state.environments reads ≡ true
    → AllRead state.environments reads
    → Inv app state
    → Inv app (resume state id reads)
resume-Inv app state id [] e fresh current h v = v
resume-Inv app state id (read ∷ reads) e fresh current h v = record {
  orderly =
      resolve_listed-is_orderly app state.environments read.listed read.app_id read.name read.now id
        fresh (current_listed state.environments read reads h current) v.orderly;
  read =
      AllRead-Grows state.environments
        (resolve_listed read.listed state.environments read.app_id read.name read.now id).1 reads
        (resolve_listed-Grows state.environments read.listed read.app_id read.name read.now id
          fresh)
        h.1;
}

module _ (hash : Text → Text) where
  call_environments-Inv :
      (app : Text) (state : EnvironmentState) (call : EnvironmentCall)
      → is_fresh state call ≡ true
      → is_undisturbed state call ≡ true
      → Inv app state
      → Inv app (call_environments hash state call)
  unfolding call_environments create_environment_key create_environment
  call_environments-Inv app state (start_resolve app_id name now) fresh current v = record {
    orderly = v.orderly;
    read = AllRead-start state.environments state.reads _ refl v.read;
  }
  call_environments-Inv app state (resume_resolve id) fresh current v =
      resume-Inv app state id state.reads refl (missing_when (get id state.environments) fresh)
        current v.read v
  call_environments-Inv app state (create_with_key app_id name now id raw_key key_id) fresh current
        v =
      let here = list_environments state.environments app_id in
      let new = missing_when (get id state.environments) fresh in
      elim (Bool-cases (leb max_environments_per_app (length here) || any (is_named name) here)) [
        | inl refused ↦ rw refused (record { orderly = v.orderly; read = v.read })
        | inr allowed ↦
            let (room, unnamed) =
              or_parts (leb max_environments_per_app (length here)) (any (is_named name) here)
                allowed in
            rw allowed (record {
              orderly =
                  is_orderly-create_environment app state.environments app_id name now id new room
                    unnamed v.orderly;
              read =
                  AllRead-Grows state.environments
                    (create_environment state.environments app_id name now id).1 state.reads
                    (create_environment-Grows state.environments app_id name now id new) v.read;
            })
      ]

  -- Each call gets an id that no environment has.
  abbrev pub all_fresh : EnvironmentState → List EnvironmentCall → Bool
  all_fresh state [] = true
  all_fresh state (call ∷ calls) =
      is_fresh state call && all_fresh (call_environments hash state call) calls

  -- No environment of the app is created while a call awaits the list that it read.
  abbrev pub all_undisturbed : EnvironmentState → List EnvironmentCall → Bool
  all_undisturbed state [] = true
  all_undisturbed state (call ∷ calls) =
      is_undisturbed state call && all_undisturbed (call_environments hash state call) calls

  call_all_environments-Inv :
      (app : Text) (state : EnvironmentState) (calls : List EnvironmentCall)
      → all_fresh state calls ≡ true
      → all_undisturbed state calls ≡ true
      → Inv app state
      → Inv app (call_all_environments hash state calls)
  unfolding call_all_environments
  call_all_environments-Inv app state [] fresh current v = v
  call_all_environments-Inv app state (call ∷ calls) fresh current v =
      let (f, fresh') =
        and_parts (is_fresh state call) (all_fresh (call_environments hash state call) calls)
          fresh in
      let (c, current') =
        and_parts (is_undisturbed state call)
          (all_undisturbed (call_environments hash state call) calls) current in
      call_all_environments-Inv app (call_environments hash state call) calls fresh' current'
        (call_environments-Inv app state call f c v)

-- Where no environment of an app is created while a call for it awaits the list that it read,
-- resolving names and creating environments with keys, each with an id that is not in use, never
-- gives an app more than twenty environments or two of one name, however else the calls overlap.
pub environments_limited :
    (hash : Text → Text) (keys : KeyStore) (calls : List EnvironmentCall) (app : Text)
    → all_fresh hash (record { environments = []; keys = keys; reads = [] }) calls ≡ true
    → all_undisturbed hash (record { environments = []; keys = keys; reads = [] }) calls ≡ true
    → is_orderly app
        (call_all_environments hash
          (record { environments = []; keys = keys; reads = [] })
          calls).environments
      ≡ true
unfolding is_orderly
environments_limited hash keys calls app fresh undisturbed =
    (call_all_environments-Inv hash app (record { environments = []; keys = keys; reads = [] })
      calls fresh undisturbed (record { orderly = refl; read = tt })).orderly
