-- ===== src/Messages/Command/Tests.antt =====
-- Commands that are read, refused, and read though they say nothing.
use communication_protocols.Base.{◌≡◌, refl, true, false, some, codes, same_bytes, fits}
use communication_protocols.Messages.Command.{
  ServerMessage, cut, tokens, decode_loop, decode_message,
}
use communication_protocols.Messages.Command.Verdict.{Verdict, decode_message-Verdict}
use communication_protocols.Messages.Command.Words.{no_space}

abbrev last : ServerMessage
last = record { type = b's'; topic = codes "news"; sf = true }

no_flag :
    decode_message last (codes "subscribe a\n") ≡ some (false, record last { topic = codes "a\n" })
unfolding decode_message decode_loop tokens cut same_bytes fits
no_flag = refl

-- The command of a subscriber that is cut off behind its first word takes the last topic.
cut_off : decode_message last (codes "unsubscribe") ≡ some (true, record last { type = b'u' })
unfolding decode_message decode_loop tokens cut same_bytes fits
cut_off = refl

decode_message-Verdict_example :
    Verdict last (tokens (codes "subscribe a 1\n")) (decode_message last (codes "subscribe a 1\n"))
decode_message-Verdict_example = decode_message-Verdict last (codes "subscribe a 1\n")

sports_plain : no_space (codes "sports") ≡ true
unfolding no_space
sports_plain = refl
