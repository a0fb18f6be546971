-- ===== src/Core/TicketDeck.antt =====
-- The cards of a battle ticket: initialHand, initialHandCardIDs and battleTicketDeckCardIDs of
-- runtime/core/service.go. The error texts are left out.
use gensoulkyo.Base.{
  ℕ, zero, suc, String, Bool, true, false, not, ◌&&◌, Option, none, some, List, [], ◌∷◌, ◌==◌,
  trim_space, ltb, eqb, if◌then◌else◌, length,
}
use gensoulkyo.Core.Cards.{in_catalog}

abbrev pub hand_limit : ℕ
hand_limit = 4

abbrev pub deck_size : ℕ
deck_size = 20

-- initialHand, where `room` cards are still to be drawn: the cards that are named, in their order.
unfoldable pub initial_hand : ℕ → List String → List String
initial_hand zero deck = []
initial_hand (suc room) [] = []
initial_hand (suc room) (card ∷ deck) =
    let passed = initial_hand (suc room) deck in
    let taken = initial_hand room deck in
    if trim_space card == "" then passed else trim_space card ∷ taken

unfoldable pub catalog_cards : List String → List String
catalog_cards [] = []
catalog_cards (card ∷ hand) =
    let rest = catalog_cards hand in if in_catalog (trim_space card) then card ∷ rest else rest

-- initialHandCardIDs
unfoldable pub initial_hand_card_ids : List String → List String
initial_hand_card_ids deck = catalog_cards (initial_hand hand_limit deck)

abbrev onto_some : String → Option (List String) → Option (List String)
onto_some card none = none
onto_some card (some cards) = some (card ∷ cards)

-- The loop of battleTicketDeckCardIDs; none where a card is blank or unknown.
unfoldable pub resolved_cards : List String → Option (List String)
resolved_cards [] = some []
resolved_cards (raw ∷ deck) =
    let card = trim_space raw in
    let rest = resolved_cards deck in
    if card == "" then none else if not (in_catalog card) then none else onto_some card rest

unfoldable pub is_prefix : List String → List String → Bool
is_prefix [] deck = true
is_prefix (card ∷ hand) [] = false
is_prefix (card ∷ hand) (top ∷ deck) = let rest = is_prefix hand deck in top == card && rest

abbrev pub with_hand : List String → Option (List String) → Option (List String)
with_hand hand none = none
with_hand hand (some resolved) = if not (is_prefix hand resolved) then none else some resolved

-- battleTicketDeckCardIDs: the deck, none where it is refused.
unfoldable pub battle_ticket_deck_card_ids : List String → List String → Option (List String)
battle_ticket_deck_card_ids deck hand =
    if eqb (length deck) 0
    then none
    else if ltb deck_size (length deck)
    then none
    else with_hand hand (resolved_cards deck)
