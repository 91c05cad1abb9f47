-- ===== src/Proto/Poker.antt =====
-- aigenora/proto/poker.py: the rules of a poker hand that the hooks of the card games share.
mod Pots
mod Hands

-- The messages of `PokerRuleError`; the last two are an assertion and a missing key.
pub data PokerRuleError : Type 0 where
  no_contributions unknown_folded bad_owner bad_amount no_eligible not_five bad_count not_object
        bad_card repeated_face no_selection no_category :
      PokerRuleError
