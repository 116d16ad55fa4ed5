-- ===== src/Stage/Tests.antt =====
-- Runs of the parsers of addresses.
use threlium.Prelude.{◌≡◌, refl, some, [], ◌∷◌, ok}
use threlium.Stage.Names.{reasoning, rfc822_mailbox, value}
use threlium.Stage.Address.{
  MailLib, parse, from_incoming_to, try_stage_from_single_addr, parse-rfc822_mailbox,
}

abbrev plain_mail : MailLib
plain_mail = record { lower = λ t. t; casefold = λ t. t; getaddresses = λ t. t ∷ [] }

parse-rfc822_mailbox_example :
    (parse plain_mail (some (rfc822_mailbox reasoning)) ≡ ok reasoning)
    × (parse plain_mail (some (value reasoning)) ≡ ok reasoning)
    × (from_incoming_to plain_mail (rfc822_mailbox reasoning ∷ []) ≡ ok reasoning)
    × (try_stage_from_single_addr plain_mail (rfc822_mailbox reasoning) ≡ some reasoning)
parse-rfc822_mailbox_example = parse-rfc822_mailbox plain_mail refl reasoning
