-- ===== src/Control/Results/Summary.antt =====
-- The summary of a command's results, whatever the devices and their order.
use multiple_protocol_contro.Common.{Bool-cases, List, Text, [], ap, if◌then◌else◌, inl, inr, map}
use multiple_protocol_contro.Common.{refl, some, sym, text_eq, ◌++◌, ◌∙◌, ◌∷◌, ◌≡◌}
use multiple_protocol_contro.Common.Int.{ℤ}
use multiple_protocol_contro.Control.Readback.{CommandStatus, status_failed, status_unverified}
use multiple_protocol_contro.Control.Readback.{status_verified}
use multiple_protocol_contro.Control.Results.{AttrDispatchResult, CommandResultBody}
use multiple_protocol_contro.Control.Results.{CommandResultEntry, DeviceLabel, add_result}
use multiple_protocol_contro.Control.Results.{body_of, build_command_result_envelope}
use multiple_protocol_contro.Control.Results.{code_and_msg, entry_of, group_from}
use multiple_protocol_contro.Control.Results.{merge_command_status, merge_from}
use multiple_protocol_contro.Control.Results.{normalized_command_status}

some-injective : {A : Type 0} {a b : A} → some a ≡ some b → a ≡ b
some-injective e = cc

merge_assoc :
    (a b c : CommandStatus)
    → merge_command_status (merge_command_status a b) c
      ≡ merge_command_status a (merge_command_status b c)
unfolding merge_command_status
merge_assoc status_failed b c = refl
merge_assoc status_verified b c = refl
merge_assoc status_unverified status_failed c = refl
merge_assoc status_unverified status_verified c = refl
merge_assoc status_unverified status_unverified status_failed = refl
merge_assoc status_unverified status_unverified status_unverified = refl
merge_assoc status_unverified status_unverified status_verified = refl

merge_comm : (a b : CommandStatus) → merge_command_status a b ≡ merge_command_status b a
unfolding merge_command_status
merge_comm status_failed status_failed = refl
merge_comm status_failed status_unverified = refl
merge_comm status_failed status_verified = refl
merge_comm status_unverified status_failed = refl
merge_comm status_unverified status_unverified = refl
merge_comm status_unverified status_verified = refl
merge_comm status_verified status_failed = refl
merge_comm status_verified status_unverified = refl
merge_comm status_verified status_verified = refl

verified_first : (a : CommandStatus) → merge_command_status status_verified a ≡ a
unfolding merge_command_status
verified_first a = refl

merge_from-nil : (a : CommandStatus) → merge_from a [] ≡ a
unfolding merge_from
merge_from-nil a = refl

merge_from-start :
    (a b : CommandStatus) (rest : List CommandStatus)
    → merge_from (merge_command_status a b) rest ≡ merge_command_status a (merge_from b rest)
unfolding merge_from
merge_from-start a b [] = refl
merge_from-start a b (c ∷ rest) =
    ap (λ s. merge_from s rest) (merge_assoc a b c)
    ∙ merge_from-start a (merge_command_status b c) rest

-- One status more in front.
merge_from-cons :
    (a : CommandStatus) (rest : List CommandStatus)
    → merge_from status_verified (a ∷ rest)
      ≡ merge_command_status a (merge_from status_verified rest)
unfolding merge_from merge_command_status
merge_from-cons a rest =
    ap (λ s. merge_from s rest) (merge_comm status_verified a)
    ∙ merge_from-start a status_verified rest

abbrev statuses : List AttrDispatchResult → List CommandStatus
statuses results = map normalized_command_status results

abbrev merged : List AttrDispatchResult → CommandStatus
merged results = merge_from status_verified (statuses results)

swap_front :
    (a b c : CommandStatus)
    → merge_command_status a (merge_command_status b c)
      ≡ merge_command_status b (merge_command_status a c)
swap_front a b c =
    sym (merge_assoc a b c)
    ∙ ap (λ s. merge_command_status s c) (merge_comm a b)
    ∙ merge_assoc b a c

verified_last : (a : CommandStatus) → merge_command_status a status_verified ≡ a
verified_last a = merge_comm a status_verified ∙ verified_first a

merged-append_one :
    (results : List AttrDispatchResult) (r : AttrDispatchResult)
    → merged (results ++ (r ∷ []))
      ≡ merge_command_status (normalized_command_status r) (merged results)
merged-append_one [] r = merge_from-cons (normalized_command_status r) []
merged-append_one (q ∷ results) r =
    merge_from-cons (normalized_command_status q) (statuses (results ++ (r ∷ [])))
    ∙ ap (merge_command_status (normalized_command_status q)) (merged-append_one results r)
    ∙ swap_front (normalized_command_status q) (normalized_command_status r) (merged results)
    ∙ ap (merge_command_status (normalized_command_status r))
        (sym (merge_from-cons (normalized_command_status q) (statuses results)))

-- The status over all groups.
abbrev group_statuses : List (Text × List AttrDispatchResult) → List CommandStatus
group_statuses groups = map (λ (group : Text × List AttrDispatchResult). merged group.1) groups

add_result-merged :
    (r : AttrDispatchResult) (groups : List (Text × List AttrDispatchResult))
    → merge_from status_verified (group_statuses (add_result r groups))
      ≡ merge_command_status
          (normalized_command_status r)
          (merge_from status_verified (group_statuses groups))
unfolding add_result
add_result-merged r [] =
    merge_from-cons (merged (r ∷ [])) []
    ∙ ap (merge_command_status (merged (r ∷ []))) (merge_from-nil status_verified)
    ∙ verified_last (merged (r ∷ []))
    ∙ merge_from-cons (normalized_command_status r) []
add_result-merged r ((serial, results) ∷ groups) =
    let n = normalized_command_status r in
    let before = group_statuses groups in
    elim (Bool-cases (text_eq r.device_serial serial)) [
      | inl same ↦ rw same (
          merge_from-cons (merged (results ++ (r ∷ []))) before
          ∙ ap (λ s. merge_command_status s (merge_from status_verified before))
              (merged-append_one results r)
          ∙ merge_assoc n (merged results) (merge_from status_verified before)
          ∙ ap (merge_command_status n) (sym (merge_from-cons (merged results) before)))
      | inr other_serial ↦ rw other_serial (
          merge_from-cons (merged results) (group_statuses (add_result r groups))
          ∙ ap (merge_command_status (merged results)) (add_result-merged r groups)
          ∙ swap_front (merged results) n (merge_from status_verified before)
          ∙ ap (merge_command_status n) (sym (merge_from-cons (merged results) before)))
    ]

-- The results that name a device.
pub named : List AttrDispatchResult → List AttrDispatchResult
named [] = []
named (r ∷ rest) = let later = named rest in if text_eq r.device_serial [] then later else r ∷ later

-- The status that is merged of all results that name a device.
abbrev pub merged_status : List AttrDispatchResult → CommandStatus
merged_status results = merged (named results)

group_from-merged :
    (groups : List (Text × List AttrDispatchResult)) (results : List AttrDispatchResult)
    → merge_from status_verified (group_statuses (group_from groups results))
      ≡ merge_command_status
          (merged_status results)
          (merge_from status_verified (group_statuses groups))
unfolding group_from named
group_from-merged groups [] = sym (
    ap (λ s. merge_command_status s (merge_from status_verified (group_statuses groups)))
      (merge_from-nil status_verified)
    ∙ verified_first (merge_from status_verified (group_statuses groups)))
group_from-merged groups (r ∷ rest) =
    let n = normalized_command_status r in
    let before = merge_from status_verified (group_statuses groups) in
    elim (Bool-cases (text_eq r.device_serial [])) [
      | inl unnamed ↦ rw unnamed (group_from-merged groups rest)
      | inr device ↦ rw device (
          group_from-merged (add_result r groups) rest
          ∙ ap (merge_command_status (merged_status rest)) (add_result-merged r groups)
          ∙ swap_front (merged_status rest) n before
          ∙ sym (merge_assoc n (merged_status rest) before)
          ∙ ap (λ s. merge_command_status s before)
              (sym (merge_from-cons n (statuses (named rest)))))
    ]

entry_statuses :
    (labels : Text → DeviceLabel) (groups : List (Text × List AttrDispatchResult))
    → map (λ (entry : CommandResultEntry). entry.verification_status) (map (entry_of labels) groups)
      ≡ group_statuses groups
unfolding entry_of
entry_statuses labels [] = refl
entry_statuses labels ((serial, results) ∷ groups) =
    ap (λ later. merged results ∷ later) (entry_statuses labels groups)

body_of-summary :
    (labels : Text → DeviceLabel) (uid : Text) (now : ℤ)
    (groups : List (Text × List AttrDispatchResult)) (body : CommandResultBody)
    → body_of labels uid now groups ≡ some body
    → (body.code, body.msg) ≡ code_and_msg (merge_from status_verified (group_statuses groups))
unfolding body_of
body_of-summary labels uid now [] body e = absurd cc
body_of-summary labels uid now (group ∷ groups) body e =
    sym (ap (λ (b : CommandResultBody). (b.code, b.msg)) (some-injective e))
    ∙ ap (λ l. code_and_msg (merge_from status_verified l)) (entry_statuses labels (group ∷ groups))

-- The code and the message of a command's envelope are those of the statuses of all results that name a
-- device, merged in the order of the results, however the results are grouped by device.
pub build_command_result_envelope-summary :
    (labels : Text → DeviceLabel) (uid : Text) (results : List AttrDispatchResult) (now : ℤ)
    (body : CommandResultBody)
    → build_command_result_envelope labels uid results now ≡ some body
    → (body.code, body.msg) ≡ code_and_msg (merged_status results)
unfolding build_command_result_envelope
build_command_result_envelope-summary labels uid results now body e =
    body_of-summary labels uid now (group_from [] results) body e
    ∙ ap code_and_msg (
        group_from-merged [] results
        ∙ ap (merge_command_status (merged_status results)) (merge_from-nil status_verified)
        ∙ verified_last (merged_status results))
