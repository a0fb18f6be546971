-- ===== src/Lib.antt =====
-- Gensoulkyo: the guard against replayed messages, the accounts, the economy and the battle
-- results of a game service, and the frames of its websocket.
--
-- The service of runtime/core answers the players of a card battle. Each message reaches it
-- through the guard of business envelopes (runtime/security), which refuses a message that is
-- malformed, stale or repeated. Players register with a code that is sent by e-mail
-- (runtime/account). An identity then spends gems, gold, faith and dust on draws, purchases,
-- upgrades and check-ins, and a match of the battle-royale mode drafts cards from the players'
-- decks. A battle runs on a server of its own, which reports the result to a callback that is
-- signed and checked for freshness; the result settles the match and pays the players. The
-- transports (runtime/httpapi, runtime/nakamaapi, runtime/lobbyws) call these parts; of them
-- the websocket frames of runtime/lobbyws, written by hand in the source, are modelled.
--
-- Every operation is a function from a state and its arguments to the new state and an answer.
-- A mutex becomes the atomicity of such a step; a sequence of calls is a list that `run` folds
-- over. Clocks, random strings and digests are arguments or section parameters: SHA-256, HMAC
-- and the key of a calendar day are code that the program only calls.
--
-- The parts and their files:
--
-- - Base: text, lists, association lists for Go maps (the zero value on a missing key), 64-bit
--   integers as patterns below 2 ^ 64 with the wrap-around written out (Base/Int64), and the
--   sliding window of timestamps that the account service and the room limiter share
--   (Base/Window, pruneSendHistory).
-- - Security/EnvelopeState, Security/Envelope: BusinessEnvelopeGuard of
--   runtime/security/business_envelope.go, its data and its operations. `validate` is Validate:
--   `precheck` the checks before the lock, `validate_session` the rest, with `admit` and
--   `evict` for the memory of nonces. Replay is about the order of seqs, Window about the
--   memory of nonces, Accounting about the counters and the audit trail, Acceptance about what
--   is accepted.
-- - Core/RoomLimiter: memoryRoomCreationLimiter of runtime/core/room_creation_limiter.go, with
--   its exactness in Exact.
-- - Account/Text: the accepted forms of runtime/account/store.go and password.go.
--   Account/Codes: the verification codes of runtime/account/service.go and code.go (beginSend,
--   dropPending, consumeCode). Account/Store: MemoryStore of runtime/account/store_memory.go,
--   where Indexes states the agreement of its three maps.
-- - Core/Cards, Core/User: the card catalog and the identity of runtime/core/service.go, with
--   grantCardToUserLocked and UpgradeCard in User/Cards.
-- - Core/Float, Core/Chance: deterministicUnit of runtime/core/simulation.go. Its values are n
--   / 10000, so a unit is the number n; `scale` is the product with a pool's size as the source
--   truncates it.
-- - Core/Pity: rollGachaRarity, gachaGuaranteedRarity and applyGachaPity of
--   runtime/core/gacha.go, and the chest's copies in service.go. Core/GachaPools,
--   Core/GachaItems, Core/Gacha and Core/FaithExchange: the pools and shots, what a slot gives,
--   GachaPull and ExchangeFaith.
-- - Core/Shop: PurchaseShopItem of runtime/core/service.go. Core/Checkin: ClaimCheckin.
-- - Core/DraftPool, Core/DraftMatch, Core/DraftPicks and Core/Draft: the pool, the match, the
--   reports and picks, and the grants and timeouts of runtime/core/battle_draft.go. A match
--   holds its round, its players with their hands and its log of events; Draft/Reached runs
--   reports, picks and timeouts in any order, Draft/Hands is about the cards that wait for a
--   place in a hand; Draft/Seats is about the seats that a deadline fills, Draft/Delivery about
--   the cards that a grant gives, and Draft/Grants about what follows it.
-- - Core/Callback: VerifyBattleCallback of runtime/core/battle_callback_freshness.go, with the
--   signature of runtime/core/service.go. Remembered and Tracked are about what a window of
--   nonces holds, Replay runs calls of all servers in any order, Edge is about the moment a
--   nonce is dropped. HMAC-SHA-256 in hexadecimal and lower-casing are parameters.
-- - Core/StringSet: sameStringSet of runtime/core/service.go, against lists as bags in
--   StringSet/Bags.
-- - Core/BattleMatch, Core/BattleChecks and Core/BattleResult: the data, the checks and the
--   settlement of ApplyBattleResultCallback (runtime/core/battle_result_callback.go), with
--   buildSettlementLocked and applyRewardsLocked of runtime/core/service.go. The ruleset of the
--   protocol package and the answer of the match store are parameters.
-- - Core/TicketStore, Core/TicketDeck, Core/TicketConsume and Core/Tickets:
--   MemoryBattleTicketStore of runtime/core/ticket_store.go, the cards of a ticket,
--   ConsumeBattleTicket, and signedBattleTicketLocked of runtime/core/service.go with the
--   retirement of tickets of lobby_bridge.go and service_stores.go. Tickets/Retired is about
--   what each operation leaves alone, Tickets/Numbered about the ids, which count on from the
--   second the service is started at, Tickets/Runs about calls in any order, Tickets/Spent
--   about consumption.
-- - Core/ShopProducts and Core/PremiumShop: the catalog and PurchaseShopProduct of
--   runtime/core/shop.go. PremiumShop/Orders lists what a call comes to, Nonces is about its
--   idempotency, Goods and Prices about what is paid and given.
-- - Core/Records: runtime/core/records.go, against the list of matches in Records/History.
-- - Lobby/Bytes, Lobby/Frames and Lobby/Messages: reads from a connection, readFrameHeader,
--   readPayload and writeFrame, and ReadMessage of runtime/lobbyws/ws.go. A connection's input
--   is the list of bytes that it holds, and what ReadMessage writes is kept with the
--   connection. Lobby/Client states the frames that a client sends by RFC 6455, Lobby/Pieces
--   and Lobby/Fragments what is read of a message in fragments, Lobby/Bounds and Lobby/Ends
--   what any input comes to.
--
-- Loops: `read_frames` has the fuel of one round for each byte of the input, and a frame takes
-- two bytes at least. `evict` recurses on the order of nonces, `draws` on the pulls that are
-- left, and `guaranteed_from` on the 200 attempts of the source. The search for a free position
-- in a draw, an endless loop in the source, is `probe` with three steps of fuel: at most two of
-- the three positions are taken before, and a draw has no more positions than the pool has
-- cards.
--
-- Text is compared and trimmed over ASCII, and a slice that would cut a character stops before
-- it. A Go map that is iterated is read in the order of its keys where the source sorts it; a
-- sweep of tickets, which may stop at its limit, takes the order of the map as an argument. The
-- wallet of an identity is never nil, since every creation of one sets it, and the branches of
-- GachaPull and PurchaseShopProduct that would replace a nil one are left out. Not modelled:
-- rooms, matchmaking, the simulation over float64, chests, gifts, the choice of a battle
-- server, persistence in SQL and Redis, the transports and the commands.
pub mod Base
pub mod Security
pub mod Account
pub mod Core
pub mod Lobby
