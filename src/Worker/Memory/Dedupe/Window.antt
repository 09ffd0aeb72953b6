-- ===== src/Worker/Memory/Dedupe/Window.antt =====
-- What `markSeen` promises its callers, whatever is pruned when.
use app_health.Prelude.{
  ℕ, ◌+◌, ◌≤◌, ◌≡◌, refl, sym, ap, ◌∙◌, ◌⊎◌, Bool, true, false, not, ◌&&◌, List, [], ◌∷◌, Option,
  none, some, is_some, leb, leb→le, ltb, if◌then◌else◌, arith, Bool-cases, Option-cases, inl, inr,
  and_parts,
}
use app_health.Js.Strings.{Text, same_text}
use app_health.Js.Maps.{Dict, get, set, remove, get_nil, get-set, get-remove}
use app_health.Js.Maps.Thinning.{
  distinct, distinct-set, distinct-remove, Thinned, Thinned-distinct, get-thinned,
}
use app_health.Worker.Memory.Dedupe.{
  DedupeCall, mark, forget_batch, cleanup, dedupe_window_ms, batch_key, is_expired, prune_dedupe,
  forget, cleanup_expired, dedupe_answers,
}
use app_health.Worker.Memory.Dedupe.Pruning.{
  prune_dedupe-Thinned, cleanup_from-Thinned, prune_young, mark_seen_fresh, mark_seen_again,
}

-- When each batch was last accepted, with nothing pruned.
abbrev pub History : Type 0
History = Text → Option ℕ

abbrev pub is_new : Option ℕ → ℕ → Bool
is_new none now = true
is_new (some at) now = is_expired now at

abbrev pub record_at : History → Text → Option ℕ → History
record_at last key at j = if same_text j key then at else last j

-- A batch is new when it was never accepted, was forgotten since, or was accepted more than the
-- window ago. Cleaning up changes no answer.
unfoldable pub window_answers : History → List DedupeCall → List Bool
window_answers last [] = []
window_answers last (mark app_id env_id batch_id now ∷ calls) =
    let key = batch_key app_id env_id batch_id in
    let fresh = is_new (last key) now in
    fresh ∷ window_answers (if fresh then record_at last key (some now) else last) calls
window_answers last (forget_batch app_id env_id batch_id ∷ calls) =
    window_answers (record_at last (batch_key app_id env_id batch_id) none) calls
window_answers last (cleanup before limit ∷ calls) = window_answers last calls

-- The clock does not go back, and what is cleaned up is out of the window.
abbrev pub in_order : ℕ → List DedupeCall → Bool
in_order clock [] = true
in_order clock (mark app_id env_id batch_id now ∷ calls) = leb clock now && in_order now calls
in_order clock (forget_batch app_id env_id batch_id ∷ calls) = in_order clock calls
in_order clock (cleanup before limit ∷ calls) =
    leb (before + dedupe_window_ms) clock && in_order clock calls

-- What is remembered of a batch is its last acceptance, unless that is out of the window.
abbrev Remembers : ℕ → Option ℕ → Option ℕ → Type 0
Remembers clock found last =
    (found ≡ last) ⊎ ((at : ℕ) × (last ≡ some at) × (is_expired clock at ≡ true) × (found ≡ none))

record Agrees (clock : ℕ) (seen : Dict ℕ) (last : History) : Type 0 where
  once : distinct seen ≡ true
  remembers : (key : Text) → Remembers clock (get key seen) (last key)

later :
    (clock now : ℕ) (found last : Option ℕ)
    → clock ≤ now
    → Remembers clock found last
    → Remembers now found last
later clock now found last h (inl same) = inl same
later clock now found last h (inr (at, was, old, gone)) = inr (at, was, ground arith, gone)

thinned_Remembers :
    (clock : ℕ) (p : ℕ → Bool) (key : Text) {d e : Dict ℕ} (last : Option ℕ)
    → ((at : ℕ) → p at ≡ true → is_expired clock at ≡ true)
    → Thinned p d e
    → distinct d ≡ true
    → Remembers clock (get key d) last
    → Remembers clock (get key e) last
thinned_Remembers clock p key {d} {e} last old t h r = elim (get-thinned p key t h) [
  | inl same ↦ rw same r
  | inr (at, was, passes, gone) ↦ elim r [
    | inl as_last ↦ inr (at, sym as_last ∙ was, old at passes, gone)
    | inr (at', was', old', gone') ↦ inr (at', was', old', gone)
  ]
]

thinned_Agrees :
    (clock : ℕ) (p : ℕ → Bool) {d e : Dict ℕ} (last : History)
    → ((at : ℕ) → p at ≡ true → is_expired clock at ≡ true)
    → Thinned p d e
    → Agrees clock d last
    → Agrees clock e last
thinned_Agrees clock p {d} {e} last old t a = record {
  once = Thinned-distinct p t a.once;
  remembers = λ key. thinned_Remembers clock p key (last key) old t a.once (a.remembers key);
}

prune_Agrees :
    (clock now : ℕ) (seen : Dict ℕ) (last : History)
    → clock ≤ now
    → Agrees clock seen last
    → Agrees now (prune_dedupe now seen) last
prune_Agrees clock now seen last h a =
    thinned_Agrees now (is_expired now) last (λ at old. old) (prune_dedupe-Thinned now seen)
      (record {
        once = a.once;
        remembers = λ key. later clock now (get key seen) (last key) h (a.remembers key);
      })

cleanup_Agrees :
    (clock before limit : ℕ) (seen : Dict ℕ) (last : History)
    → leb (before + dedupe_window_ms) clock ≡ true
    → Agrees clock seen last
    → Agrees clock (cleanup_expired seen before limit).1 last
unfolding cleanup_expired
cleanup_Agrees clock before limit seen last h a =
    thinned_Agrees clock (λ at. ltb at before) last (λ at old. ground arith)
      (cleanup_from-Thinned before limit 0 seen) a

forget_Agrees :
    (clock : ℕ) (key : Text) (seen : Dict ℕ) (last : History)
    → Agrees clock seen last
    → Agrees clock (remove key seen) (record_at last key none)
forget_Agrees clock key seen last a = record {
  once = distinct-remove key seen a.once;
  remembers = λ j. rw (get-remove j key seen) (elim (Bool-cases (same_text j key)) [
    | inl here ↦ rw here (inl refl)
    | inr there ↦ rw there (a.remembers j)
  ]);
}

accept_Agrees :
    (clock : ℕ) (key : Text) (seen : Dict ℕ) (last : History)
    → Agrees clock seen last
    → Agrees clock (set key clock seen) (record_at last key (some clock))
accept_Agrees clock key seen last a = record {
  once = distinct-set key clock seen a.once;
  remembers = λ j. rw (get-set j key clock seen) (elim (Bool-cases (same_text j key)) [
    | inl here ↦ rw here (inl refl)
    | inr there ↦ rw there (a.remembers j)
  ]);
}

-- After pruning, a batch is found just when it is not new.
found_when_old :
    (now : ℕ) (key : Text) (pruned : Dict ℕ) (last : History)
    → ((at : ℕ) → get key pruned ≡ some at → is_expired now at ≡ false)
    → Remembers now (get key pruned) (last key)
    → not (is_some (get key pruned)) ≡ is_new (last key) now
found_when_old now key pruned last young r = elim r [
  | inl same ↦ elim (Option-cases (get key pruned)) [
    | inl missing ↦ rw (missing, sym same ∙ missing) refl
    | inr (at, there) ↦ rw (there, sym same ∙ there, young at there) refl
  ]
  | inr (at, was, old, gone) ↦ rw (was, gone) (sym old)
]

answers_agree :
    (clock : ℕ) (seen : Dict ℕ) (last : History) (calls : List DedupeCall)
    → in_order clock calls ≡ true
    → Agrees clock seen last
    → dedupe_answers seen calls ≡ window_answers last calls
unfolding dedupe_answers window_answers forget
answers_agree clock seen last [] h a = refl
answers_agree clock seen last (mark app_id env_id batch_id now ∷ calls) h a =
    let key = batch_key app_id env_id batch_id in
    let (forward, rest) = and_parts (leb clock now) (in_order now calls) h in
    let pruned = prune_dedupe now seen in
    let a' = prune_Agrees clock now seen last (leb→le clock now forward) a in
    let agree =
      found_when_old now key pruned last (λ at e. prune_young now key seen at e)
        (a'.remembers key) in
    elim (Bool-cases (is_some (get key pruned))) [
      | inl again ↦
          let old : is_new (last key) now ≡ false = sym agree ∙ ap not again in
          rw (mark_seen_again seen app_id env_id batch_id now again, old)
            (ap (◌∷◌ false) (answers_agree now pruned last calls rest a'))
      | inr first ↦
          let fresh : is_new (last key) now ≡ true = sym agree ∙ ap not first in
          rw (mark_seen_fresh seen app_id env_id batch_id now first, fresh)
            (ap (◌∷◌ true) (
              answers_agree now (set key now pruned) (record_at last key (some now)) calls rest
                (accept_Agrees now key pruned last a')))
    ]
answers_agree clock seen last (forget_batch app_id env_id batch_id ∷ calls) h a =
    let key = batch_key app_id env_id batch_id in
    answers_agree clock (remove key seen) (record_at last key none) calls h
      (forget_Agrees clock key seen last a)
answers_agree clock seen last (cleanup before limit ∷ calls) h a =
    let (out, rest) = and_parts (leb (before + dedupe_window_ms) clock) (in_order clock calls) h in
    answers_agree clock (cleanup_expired seen before limit).1 last calls rest
      (cleanup_Agrees clock before limit seen last out a)

-- Over calls in the order of time, of which no cleanup reaches into the window, a batch is accepted
-- just when it was never accepted, was forgotten since, or was accepted more than an hour ago.
pub mark_seen-window :
    (calls : List DedupeCall)
    → in_order 0 calls ≡ true
    → dedupe_answers [] calls ≡ window_answers (λ key. none) calls
mark_seen-window calls h =
    answers_agree 0 [] (λ key. none) calls h
      (record { once = refl; remembers = λ key. inl (get_nil key) })
