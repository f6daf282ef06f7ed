-- ===== src/Messages/Topics/Tests.antt =====
-- Subscriptions to three topics, one of them twice, and an unsubscription.
use communication_protocols.Base.{◌≡◌, refl, true, false, List, [], ◌∷◌, codes, same_bytes}
use communication_protocols.Messages.Topics.{
  Topic, set_sf, add_topic, unlink, remove_topic, check_subscription, check_sf_active,
}
use communication_protocols.Messages.Topics.Lookup.{IsMap, flag}
use communication_protocols.Messages.Topics.Refine.{
  Change, subscribe, unsubscribe, changed, spec, is_subscribed, is_forwarded, changed-spec,
}

abbrev topic : List Topic
topic = record { name = codes "a"; sf = true } ∷ []

abbrev four_changes : List Change
four_changes =
    subscribe (codes "b") false
    ∷ subscribe (codes "a") false
    ∷ subscribe (codes "c") true
    ∷ unsubscribe (codes "b")
    ∷ []

four_changed :
    changed four_changes topic
    ≡ record { name = codes "c"; sf = true } ∷ record { name = codes "a"; sf = false } ∷ []
unfolding changed add_topic set_sf remove_topic unlink same_bytes
four_changed = refl

topic-IsMap : IsMap topic
unfolding IsMap
topic-IsMap = (tt, tt)

changed-spec_example :
    IsMap (changed four_changes topic)
    × (check_subscription (changed four_changes topic) (codes "a")
        ≡ is_subscribed (spec four_changes (flag topic) (codes "a")))
    × (check_sf_active (changed four_changes topic) (codes "a")
        ≡ is_forwarded (spec four_changes (flag topic) (codes "a")))
changed-spec_example = changed-spec four_changes topic (codes "a") topic-IsMap
