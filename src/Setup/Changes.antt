-- ===== src/Setup/Changes.antt =====
-- The changes between two snapshots of the endpoints.
use phonewave.Prelude.{
  ◌≡◌, refl, ap, ◌↔◌, ◌⊎◌, inl, inr, false, Option, none, some, List, [], ◌∷◌, ◌++◌, Text, codes,
  Bool-cases, Option-cases, In, In-append_left, In-append_right, In-append_cases, Dict, lookup,
  insert, IsMap, insert-IsMap, lookup-In, In-lookup,
}
use phonewave.Router.{Endpoint}
use phonewave.Config.{RepoConfig, Config}
use phonewave.Setup.Diff.{
  EndpointDiff, add_endpoints, snapshot_repos, snapshot_endpoints, endpoint_equal, endpoint_diff,
  change_of, added_or_changed, removed, diff_endpoints,
}

add_endpoints-IsMap :
    (path : Text) (eps : List Endpoint) (snap : Dict Endpoint)
    → IsMap snap
    → IsMap (add_endpoints path eps snap)
unfolding add_endpoints
add_endpoints-IsMap path [] snap h = h
add_endpoints-IsMap path (ep ∷ eps) snap h =
    add_endpoints-IsMap path eps (insert _ ep snap) (insert-IsMap _ ep snap h)

snapshot_repos-IsMap :
    (repos : List RepoConfig) (snap : Dict Endpoint)
    → IsMap snap
    → IsMap (snapshot_repos repos snap)
unfolding snapshot_repos
snapshot_repos-IsMap [] snap h = h
snapshot_repos-IsMap (repo ∷ repos) snap h =
    snapshot_repos-IsMap repos (add_endpoints repo.path repo.endpoints snap)
      (add_endpoints-IsMap repo.path repo.endpoints snap h)

pub snapshot-IsMap : (cfg : Config) → IsMap (snapshot_endpoints cfg)
unfolding snapshot_endpoints
snapshot-IsMap cfg = snapshot_repos-IsMap cfg.repositories [] tt

-- The change says of a key that only the new map has it, that both have it with other kinds, or
-- that only the old map has it.
abbrev pub IsAdded : Dict Endpoint → Dict Endpoint → Text → EndpointDiff → Type 0
IsAdded old latest key d =
    (d ≡ endpoint_diff key (codes "added"))
    × (lookup key old ≡ none)
    × ((ep : Endpoint) × (lookup key latest ≡ some ep))

abbrev pub IsChanged : Dict Endpoint → Dict Endpoint → Text → EndpointDiff → Type 0
IsChanged old latest key d =
    (d ≡ endpoint_diff key (codes "changed"))
    × ((before : Endpoint) × (now : Endpoint) × (lookup key old ≡ some before)
        × (lookup key latest ≡ some now)
        × (endpoint_equal before now ≡ false))

abbrev pub IsRemoved : Dict Endpoint → Dict Endpoint → Text → EndpointDiff → Type 0
IsRemoved old latest key d =
    (d ≡ endpoint_diff key (codes "removed"))
    × ((before : Endpoint) × (lookup key old ≡ some before))
    × (lookup key latest ≡ none)

abbrev pub Reports : Dict Endpoint → Dict Endpoint → EndpointDiff → Type 0
Reports old latest d =
    (key : Text) × (IsAdded old latest key d
      ⊎ (IsChanged old latest key d ⊎ IsRemoved old latest key d))

change_of-In :
    (old latest : Dict Endpoint) (key : Text) (ep : Endpoint) (d : EndpointDiff)
    → lookup key latest ≡ some ep
    → In d (change_of old key ep)
    → IsAdded old latest key d ⊎ IsChanged old latest key d
unfolding change_of
change_of-In old latest key ep d now h = by_old (lookup key old) refl
  where
    by_old :
        (o : Option Endpoint)
        → lookup key old ≡ o
        → IsAdded old latest key d ⊎ IsChanged old latest key d
    by_old none eq =
        elim (let r : In d (endpoint_diff key (codes "added") ∷ []) = rw (eq, change_of) at h in
          r) [ inl e ↦ inl (e, eq, (ep, now)) | inr bad ↦ absurd bad ]
    by_old (some before) eq = elim (Bool-cases (endpoint_equal before ep)) [
      | inl same ↦ absurd (rw same at (rw (eq, change_of) at h))
      | inr differ ↦
          elim (let r : In d (endpoint_diff key (codes "changed") ∷ []) =
              rw differ at (rw (eq, change_of) at h) in
            r) [ inl e ↦ inr (e, (before, ep, eq, now, differ)) | inr bad ↦ absurd bad ]
    ]

added-change_of :
    (old : Dict Endpoint) (key : Text) (ep : Endpoint) (d : EndpointDiff)
    → d ≡ endpoint_diff key (codes "added")
    → lookup key old ≡ none
    → In d (change_of old key ep)
unfolding change_of
added-change_of old key ep d e eq = rw (eq, change_of) (inl e)

changed-change_of :
    (old : Dict Endpoint) (key : Text) (before ep : Endpoint) (d : EndpointDiff)
    → d ≡ endpoint_diff key (codes "changed")
    → lookup key old ≡ some before
    → endpoint_equal before ep ≡ false
    → In d (change_of old key ep)
unfolding change_of
changed-change_of old key before ep d e eq differ = rw (eq, change_of) (rw differ (inl e))

added_or_changed-In :
    (old latest : Dict Endpoint) (d : EndpointDiff)
    → In d (added_or_changed old latest)
    → (key : Text) × (ep : Endpoint) × In (key, ep) latest × In d (change_of old key ep)
unfolding added_or_changed
added_or_changed-In old [] d h = absurd h
added_or_changed-In old ((key, ep) ∷ latest) d h =
    elim (In-append_cases d (change_of old key ep) (added_or_changed old latest) h) [
      | inl l ↦ (key, ep, inl refl, l)
      | inr l ↦ let (k, e, at, m) = added_or_changed-In old latest d l in (k, e, inr at, m)
    ]

In-added_or_changed :
    (old latest : Dict Endpoint) (key : Text) (ep : Endpoint) (d : EndpointDiff)
    → In (key, ep) latest
    → In d (change_of old key ep)
    → In d (added_or_changed old latest)
unfolding added_or_changed
In-added_or_changed old [] key ep d at h = absurd at
In-added_or_changed old ((k, e) ∷ latest) key ep d (inl eq) h =
    In-append_left d (change_of old k e) (added_or_changed old latest)
      (rw (ap (λ y. y.0) eq, ap (λ y. y.1) eq) at h)
In-added_or_changed old ((k, e) ∷ latest) key ep d (inr at) h =
    In-append_right d (change_of old k e) (added_or_changed old latest)
      (In-added_or_changed old latest key ep d at h)

abbrev RemovedOf : Dict Endpoint → Dict Endpoint → EndpointDiff → Type 0
RemovedOf latest old d =
    (key : Text) × (ep : Endpoint) × In (key, ep) old
    × (lookup key latest ≡ none)
    × (d ≡ endpoint_diff key (codes "removed"))

removed-In :
    (latest old : Dict Endpoint) (d : EndpointDiff)
    → In d (removed latest old)
    → RemovedOf latest old d
unfolding removed
removed-In latest [] d h = absurd h
removed-In latest ((key, ep) ∷ old) d h =
    by_latest (lookup key latest) refl (λ m. later (removed-In latest old d m))
  where
    later : RemovedOf latest old d → RemovedOf latest ((key, ep) ∷ old) d
    later (k, e, at, gone, eq) = (k, e, inr at, gone, eq)

    by_latest :
        (o : Option Endpoint)
        → lookup key latest ≡ o
        → (In d (removed latest old) → RemovedOf latest ((key, ep) ∷ old) d)
        → RemovedOf latest ((key, ep) ∷ old) d
    by_latest (some now) eq rest = rest (rw (eq, removed) at h)
    by_latest none eq rest =
        elim (let r : In d (endpoint_diff key (codes "removed") ∷ removed latest old) =
            rw (eq, removed) at h in
          r) [ inl e ↦ (key, ep, inl refl, eq, e) | inr m ↦ rest m ]

In-removed :
    (latest old : Dict Endpoint) (key : Text) (ep : Endpoint) (d : EndpointDiff)
    → In (key, ep) old
    → lookup key latest ≡ none
    → d ≡ endpoint_diff key (codes "removed")
    → In d (removed latest old)
unfolding removed
In-removed latest [] key ep d at gone e = absurd at
In-removed latest ((k, x) ∷ old) key ep d (inl eq) gone e =
    let same = ap (λ y. y.0) eq in rw (rw same at gone, removed) (inl (rw same at e))
In-removed latest ((k, x) ∷ old) key ep d (inr at) gone e =
    let m = In-removed latest old key ep d at gone e in
    elim (Option-cases (lookup k latest)) [
      | inl none_ ↦ rw (none_, removed) (inr m)
      | inr (now, some_) ↦ rw (some_, removed) m
    ]

-- diffEndpoints reports exactly what differs.
pub diff_endpoints_iff :
    (old latest : Dict Endpoint) (d : EndpointDiff)
    → IsMap old
    → IsMap latest
    → In d (diff_endpoints old latest) ↔ Reports old latest d
unfolding diff_endpoints
diff_endpoints_iff old latest d u v = (sound, complete)
  where
    sound : In d (added_or_changed old latest ++ removed latest old) → Reports old latest d
    sound h = elim (In-append_cases d (added_or_changed old latest) (removed latest old) h) [
      | inl l ↦
          let (key, ep, at, m) = added_or_changed-In old latest d l in
          elim (change_of-In old latest key ep d (In-lookup key ep latest v at) m) [
            | inl a ↦ (key, inl a)
            | inr c ↦ (key, inr (inl c))
          ]
      | inr r ↦
          let (key, ep, at, gone, e) = removed-In latest old d r in
          (key, inr (inr (e, (ep, In-lookup key ep old u at), gone)))
    ]

    left :
        In d (added_or_changed old latest)
        → In d (added_or_changed old latest ++ removed latest old)
    left m = In-append_left d (added_or_changed old latest) (removed latest old) m

    complete : Reports old latest d → In d (added_or_changed old latest ++ removed latest old)
    complete (key, inl (e, gone, (ep, now))) = left (
        In-added_or_changed old latest key ep d (lookup-In key ep latest now)
          (added-change_of old key ep d e gone))
    complete (key, inr (inl (e, (before, ep, was, now, differ)))) = left (
        In-added_or_changed old latest key ep d (lookup-In key ep latest now)
          (changed-change_of old key before ep d e was differ))
    complete (key, inr (inr (e, (ep, was), gone))) =
        In-append_right d (added_or_changed old latest) (removed latest old)
          (In-removed latest old key ep d (lookup-In key ep old was) gone e)
