-- ===== src/Messages/Topics/Refine.antt =====
-- Sequences of changes of a client's topics in helpers.cpp, and the map that they implement.
use communication_protocols.Base.{
  ◌≡◌, refl, ap, ◌∙◌, Bool, true, false, Option, none, some, List, [], ◌∷◌, Bytes, same_bytes,
  if◌then◌else◌, arith,
}
use communication_protocols.Messages.Topics.{
  Topic, add_topic, remove_topic, check_subscription, check_sf_active,
}
use communication_protocols.Messages.Topics.Lookup.{
  IsMap, flag, same_sym, add_topic-flag, add_topic-IsMap, remove_topic-flag, remove_topic-IsMap,
}

pub data Change : Type 0 where
  subscribe : Bytes → Bool → Change
  unsubscribe : Bytes → Change

-- The changes on the list.
unfoldable pub changed : List Change → List Topic → List Topic
changed [] topics = topics
changed (subscribe name sf ∷ changes) topics = changed changes (add_topic name sf topics)
changed (unsubscribe name ∷ changes) topics = changed changes (remove_topic name topics)

-- The changes on a map from names to flags, and what is asked of it.
abbrev pub Flags : Type 0
Flags = Bytes → Option Bool

abbrev pub write_flag : Bytes → Option Bool → Flags → Flags
write_flag name value flags other = if same_bytes name other then value else flags other

unfoldable pub spec : List Change → Flags → Flags
spec [] flags = flags
spec (subscribe name sf ∷ changes) flags = spec changes (write_flag name (some sf) flags)
spec (unsubscribe name ∷ changes) flags = spec changes (write_flag name none flags)

abbrev pub is_subscribed : Option Bool → Bool
is_subscribed none = false
is_subscribed (some sf) = true

abbrev pub is_forwarded : Option Bool → Bool
is_forwarded none = false
is_forwarded (some sf) = sf

pub check_subscription-flag :
    (topics : List Topic) (name : Bytes)
    → check_subscription topics name ≡ is_subscribed (flag topics name)
unfolding check_subscription flag
check_subscription-flag [] name = refl
check_subscription-flag (t ∷ topics) name = ground (arith, check_subscription-flag topics name)

pub check_sf_active-flag :
    (topics : List Topic) (name : Bytes)
    → check_sf_active topics name ≡ is_forwarded (flag topics name)
unfolding check_sf_active flag
check_sf_active-flag [] name = refl
check_sf_active-flag (t ∷ topics) name =
    ground (arith, check_sf_active-flag topics name, same_sym name t.name)

flag-write :
    (topics : List Topic) (flags : Flags)
    → ((other : Bytes) → flag topics other ≡ flags other)
    → (name : Bytes) (value : Option Bool) (topics' : List Topic)
    → ((other : Bytes) → flag topics' other ≡ write_flag name value (flag topics) other)
    → (other : Bytes) → flag topics' other ≡ write_flag name value flags other
flag-write topics flags same name value topics' h other =
    h other ∙ ap (λ f. if same_bytes name other then value else f) (same other)

pub changed-flag :
    (changes : List Change) (topics : List Topic) (flags : Flags)
    → IsMap topics
    → ((other : Bytes) → flag topics other ≡ flags other)
    → IsMap (changed changes topics)
      × ((other : Bytes) → flag (changed changes topics) other ≡ spec changes flags other)
unfolding changed spec
changed-flag [] topics flags v same = (v, same)
changed-flag (subscribe name sf ∷ changes) topics flags v same =
    changed-flag changes (add_topic name sf topics) (write_flag name (some sf) flags)
      (add_topic-IsMap name sf topics v)
      (flag-write topics flags same name (some sf) (add_topic name sf topics)
        (add_topic-flag name sf topics))
changed-flag (unsubscribe name ∷ changes) topics flags v same =
    changed-flag changes (remove_topic name topics) (write_flag name none flags)
      (remove_topic-IsMap name topics v)
      (flag-write topics flags same name none (remove_topic name topics)
        (λ other. remove_topic-flag name topics other v))

-- On a list in which no name stands twice, any subscriptions and unsubscriptions do to both checks
-- what they do to a map from names to flags, where a subscription writes a flag and an
-- unsubscription removes it; and no name stands twice afterwards.
pub changed-spec :
    (changes : List Change) (topics : List Topic) (name : Bytes)
    → IsMap topics
    → IsMap (changed changes topics)
      × (check_subscription (changed changes topics) name
          ≡ is_subscribed (spec changes (flag topics) name))
      × (check_sf_active (changed changes topics) name
          ≡ is_forwarded (spec changes (flag topics) name))
changed-spec changes topics name v =
    let (v', same) = changed-flag changes topics (flag topics) v (λ other. refl) in
    let topics' = changed changes topics in
    (
      v',
      check_subscription-flag topics' name ∙ ap is_subscribed (same name),
      check_sf_active-flag topics' name ∙ ap is_forwarded (same name),
    )
