-- ===== src/Worker/Memory/Environments/Interleaving.antt =====
-- Calls that overlap: `resolveEnvironment` awaits the list of the environments before it tests that
-- list, so other calls run in between. What was awaited goes on in the order in which it was read.
use app_health.Prelude.{
  ℕ, ◌≡◌, sym, ap, ◌∙◌, Bool, true, not, List, [], ◌∷◌, ◌++◌, none, is_some, ◌==◌, ==→eq, length,
  length-append, append_assoc, append-nil, filter-append, if◌then◌else◌, arith,
}
use app_health.Js.Strings.{Text}
use app_health.Js.Maps.{Dict, get, values, values-set_new}
use app_health.Worker.Memory.Keys.{KeyStore}
use app_health.Worker.Memory.Environments.{
  EnvironmentV1, new_environment, create_environment, list_environments, is_of_app, resolve_listed,
  create_environment_key,
}

-- A `resolveEnvironment` that awaits, and what it read.
pub record EnvironmentRead : Type 0 where
  pub app_id : Text
  pub name : Text
  pub now : ℕ
  pub listed : List EnvironmentV1

pub record EnvironmentState : Type 0 where
  pub environments : Dict EnvironmentV1
  pub keys : KeyStore
  pub reads : List EnvironmentRead

pub data EnvironmentCall : Type 0 where
  start_resolve : (app_id name : Text) (now : ℕ) → EnvironmentCall
  -- The oldest one that awaits goes on.
  resume_resolve : (id : Text) → EnvironmentCall
  create_with_key : (app_id name : Text) (now : ℕ) (id raw_key key_id : Text) → EnvironmentCall

abbrev pub resume : EnvironmentState → Text → List EnvironmentRead → EnvironmentState
resume state id [] = state
resume state id (read ∷ reads) = record state {
  environments =
      (resolve_listed read.listed state.environments read.app_id read.name read.now id).1;
  reads = reads;
}

module _ (hash : Text → Text) where
  unfoldable pub call_environments : EnvironmentState → EnvironmentCall → EnvironmentState
  call_environments state (start_resolve app_id name now) = record state {
    reads =
        state.reads
        ++ record {
          app_id = app_id;
          name = name;
          now = now;
          listed = list_environments state.environments app_id;
        }
          ∷ [];
  }
  call_environments state (resume_resolve id) = resume state id state.reads
  call_environments state (create_with_key app_id name now id raw_key key_id) =
      let (answer, environments, keys) =
        create_environment_key hash state.environments state.keys app_id name now id raw_key
          key_id in
      record state { environments = environments; keys = keys }

  unfoldable pub call_all_environments : EnvironmentState → List EnvironmentCall → EnvironmentState
  unfolding call_environments
  call_all_environments state [] = state
  call_all_environments state (call ∷ calls) =
      call_all_environments (call_environments state call) calls

-- A call gets an id that no environment has.
abbrev pub is_fresh : EnvironmentState → EnvironmentCall → Bool
is_fresh state (start_resolve app_id name now) = true
is_fresh state (resume_resolve id) = not (is_some (get id state.environments))
is_fresh state (create_with_key app_id name now id raw_key key_id) =
    not (is_some (get id state.environments))

-- The app has as many environments as when the oldest call that awaits read them.
abbrev pub is_current : Dict EnvironmentV1 → List EnvironmentRead → Bool
is_current environments [] = true
is_current environments (read ∷ reads) =
    length (list_environments environments read.app_id) == length read.listed

abbrev pub is_undisturbed : EnvironmentState → EnvironmentCall → Bool
is_undisturbed state (resume_resolve id) = is_current state.environments state.reads
is_undisturbed state _ = true

-- Environments were added, and none was changed or removed.
pub record Grows (environments after : Dict EnvironmentV1) : Type 0 where
  pub added :
      (app : Text)
      → (more : List EnvironmentV1) × (list_environments after app
          ≡ list_environments environments app ++ more)

pub Grows-self : (environments : Dict EnvironmentV1) → Grows environments environments
Grows-self environments = record {
  added = λ app. ([], sym (append-nil (list_environments environments app)));
}

pub create_environment-Grows :
    (environments : Dict EnvironmentV1) (app_id name : Text) (now : ℕ) (id : Text)
    → get id environments ≡ none
    → Grows environments (create_environment environments app_id name now id).1
unfolding create_environment
create_environment-Grows environments app_id name now id fresh = record {
  added = λ app.
      let e = new_environment id app_id name now in
      (
        (if is_of_app app e then e ∷ [] else []),
        rw (values-set_new id e environments fresh)
            (filter-append (is_of_app app) (values environments) e),
      );
}

-- Every list that was read is the first part of what there is now.
abbrev pub AllRead : Dict EnvironmentV1 → List EnvironmentRead → Type 0
AllRead environments [] = Unit {0}
AllRead environments (read ∷ reads) =
    ((more : List EnvironmentV1) × (list_environments environments read.app_id
        ≡ read.listed ++ more))
    × AllRead environments reads

pub AllRead-Grows :
    (environments after : Dict EnvironmentV1) (reads : List EnvironmentRead)
    → Grows environments after
    → AllRead environments reads
    → AllRead after reads
AllRead-Grows environments after [] g h = tt
AllRead-Grows environments after (read ∷ reads) g ((more, e), h) =
    let (new, f) = g.added read.app_id in
    (
      (more ++ new, f ∙ ap (λ es. es ++ new) e ∙ append_assoc read.listed more new),
      AllRead-Grows environments after reads g h,
    )

pub AllRead-start :
    (environments : Dict EnvironmentV1) (reads : List EnvironmentRead) (read : EnvironmentRead)
    → read.listed ≡ list_environments environments read.app_id
    → AllRead environments reads
    → AllRead environments (reads ++ read ∷ [])
AllRead-start environments [] read e h = (([], sym (append-nil read.listed ∙ e)), tt)
AllRead-start environments (r ∷ reads) read e (first, h) =
    (first, AllRead-start environments reads read e h)

no_more :
    (listed more : List EnvironmentV1)
    → length (listed ++ more) ≡ length listed
    → listed ++ more ≡ listed
no_more listed [] h = append-nil listed
no_more listed (e ∷ more) h = let longer = length-append listed (e ∷ more) in ground arith

-- A list that is as long as what there is now is all of it.
pub current_listed :
    (environments : Dict EnvironmentV1) (read : EnvironmentRead) (reads : List EnvironmentRead)
    → AllRead environments (read ∷ reads)
    → is_current environments (read ∷ reads) ≡ true
    → list_environments environments read.app_id ≡ read.listed
current_listed environments read reads ((more, e), h) current =
    e
    ∙ no_more read.listed more (
        ap length (sym e)
        ∙ ==→eq (length (list_environments environments read.app_id)) (length read.listed) current)
