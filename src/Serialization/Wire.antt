-- ===== src/Serialization/Wire.antt =====
-- A concrete format for the messages: the numbers of a message and its bytes as lists, each with its
-- length before it.
use mathlib.Core.Option
use chain_forge.Base.{
  ℕ, zero, suc, ◌≤◌, ◌≡◌, refl, Option, none, some, List, [], ◌∷◌, ◌++◌, length, take, drop, arith,
  length-append,
}
use chain_forge.Core.Bytes.{Bytes}
use chain_forge.Serialization.Messages.{
  TimestampMessage, TxInput, TxOutput, TransactionMessage, BlockMessage, Codec, IsLawful, Protobuf,
}

abbrev put_all : List Bytes → Bytes
put_all [] = []
put_all (xs ∷ xss) = length xs ∷ (xs ++ put_all xss)

abbrev get_all : ℕ → Bytes → List Bytes
get_all zero bs = []
get_all (suc f) [] = []
get_all (suc f) (n ∷ bs) = take n bs ∷ get_all f (drop n bs)

take-length : (xs ys : Bytes) → take (length xs) (xs ++ ys) ≡ xs
take-length [] ys = refl
take-length (x ∷ xs) ys = rw (take-length xs ys) refl

drop-length : (xs ys : Bytes) → drop (length xs) (xs ++ ys) ≡ ys
drop-length [] ys = refl
drop-length (x ∷ xs) ys = drop-length xs ys

get_all-put_all :
    (f : ℕ) (xss : List Bytes) → length (put_all xss) ≤ f → get_all f (put_all xss) ≡ xss
get_all-put_all zero [] h = refl
get_all-put_all (suc f) [] h = refl
get_all-put_all zero (xs ∷ xss) h = ground arith
get_all-put_all (suc f) (xs ∷ xss) h =
    let size = length-append xs (put_all xss) in
    rw
      (
        take-length xs (put_all xss),
        drop-length xs (put_all xss),
        get_all-put_all f xss (omega arith),
      )
      refl

abbrev from_bytes : Bytes → List Bytes
from_bytes bs = get_all (length bs) bs

from_bytes-put_all : (xss : List Bytes) → from_bytes (put_all xss) ≡ xss
from_bytes-put_all xss = get_all-put_all (length (put_all xss)) xss (omega arith)

abbrev lists_of : TxInput → TxOutput → TransactionMessage → List Bytes → List Bytes
lists_of i o m rest =
    (m.version ∷ m.gas_limit ∷ m.nonce ∷ m.timestamp.seconds ∷ m.timestamp.nanoseconds
      ∷ i.output_index ∷ [])
    ∷ i.prev_tx_hash
    ∷ i.signature
    ∷ i.pubkey
    ∷ o.amount
    ∷ o.recipient
    ∷ m.gas_price
    ∷ m.payload
    ∷ m.tx_hash
    ∷ rest

-- Only messages with one input and one output are written.
abbrev to_lists :
    List TxInput → List TxOutput → TransactionMessage → List Bytes → Option (List Bytes)
to_lists (i ∷ []) (o ∷ []) m rest = some (lists_of i o m rest)
to_lists _ _ m rest = none

abbrev of_lists : List Bytes → Option (TransactionMessage × List Bytes)
of_lists
      ((version ∷ gas_limit ∷ nonce ∷ seconds ∷ nanoseconds ∷ index ∷ [])
        ∷ prev
        ∷ signature
        ∷ pubkey
        ∷ amount
        ∷ recipient
        ∷ gas_price
        ∷ payload
        ∷ hash
        ∷ rest) =
    some (
      record {
        version = version;
        inputs =
            record {
              prev_tx_hash = prev;
              output_index = index;
              signature = signature;
              pubkey = pubkey;
            }
            ∷ [];
        outputs = record { amount = amount; recipient = recipient } ∷ [];
        gas_limit = gas_limit;
        gas_price = gas_price;
        payload = payload;
        nonce = nonce;
        timestamp = record { seconds = seconds; nanoseconds = nanoseconds };
        tx_hash = hash;
      },
      rest,
    )
of_lists _ = none

of_lists-to_lists :
    (is : List TxInput) (os : List TxOutput) (m : TransactionMessage) (rest xss : List Bytes)
    → to_lists is os m rest ≡ some xss
    → of_lists xss ≡ some (record m { inputs = is; outputs = os }, rest)
of_lists-to_lists (i ∷ []) (o ∷ []) m rest xss h =
    let e : lists_of i o m rest ≡ xss = ground arith in rw (← e) refl
of_lists-to_lists [] os m rest xss h = ground arith
of_lists-to_lists (i ∷ j ∷ is) os m rest xss h = ground arith
of_lists-to_lists (i ∷ []) [] m rest xss h = ground arith
of_lists-to_lists (i ∷ []) (o ∷ p ∷ os) m rest xss h = ground arith

abbrev lists_codec : {M : Type 0} → (M → Option (List Bytes)) → (List Bytes → Option M) → Codec M
lists_codec to of = record {
  serialize_to_array = λ m. Option.map put_all (to m);
  parse_from_array = λ bs. of (from_bytes bs);
}

map-some :
    {A B : Type 0} (f : A → B) (o : Option A) (b : B)
    → Option.map f o ≡ some b
    → (a : A) × (o ≡ some a) × (f a ≡ b)
map-some f none b h = ground arith
map-some f (some a) b h = (a, refl, ground arith)

lists_codec-IsLawful :
    {M : Type 0} (to : M → Option (List Bytes)) (of : List Bytes → Option M)
    → ((m : M) (xss : List Bytes) → to m ≡ some xss → of xss ≡ some m)
    → IsLawful (lists_codec to of)
lists_codec-IsLawful to of back = record {
  parse-serialize = λ m bytes h.
      let (xss, e, p) = map-some put_all (to m) bytes h in
      rw (← p, from_bytes-put_all xss) (back m xss e);
}

abbrev whole : Option (TransactionMessage × List Bytes) → Option TransactionMessage
whole (some (m, [])) = some m
whole _ = none

abbrev transaction_codec : Codec TransactionMessage
transaction_codec =
    lists_codec (λ m. to_lists m.inputs m.outputs m []) (λ xss. whole (of_lists xss))

pub transaction_codec-IsLawful : IsLawful transaction_codec
transaction_codec-IsLawful =
    lists_codec-IsLawful (λ m. to_lists m.inputs m.outputs m []) (λ xss. whole (of_lists xss))
      (λ m xss h. rw (of_lists-to_lists m.inputs m.outputs m [] xss h) refl)

abbrev with_rest : TransactionMessage → Option (List Bytes) → Option (List Bytes)
with_rest m none = none
with_rest m (some rest) = to_lists m.inputs m.outputs m rest

abbrev put_messages : List TransactionMessage → Option (List Bytes)
put_messages [] = some []
put_messages (m ∷ ms) = with_rest m (put_messages ms)

abbrev get_messages : ℕ → List Bytes → Option (List TransactionMessage)
get_messages zero xss = some []
get_messages (suc n) xss = elim (of_lists xss) [
  | none ↦ none
  | some (m, rest) ↦ Option.map (λ ms. m ∷ ms) (get_messages n rest)
]

with_rest-some :
    (m : TransactionMessage) (o : Option (List Bytes)) (xss : List Bytes)
    → with_rest m o ≡ some xss
    → (rest : List Bytes) × (o ≡ some rest) × (of_lists xss ≡ some (m, rest))
with_rest-some m none xss h = ground arith
with_rest-some m (some rest) xss h = (rest, refl, of_lists-to_lists m.inputs m.outputs m rest xss h)

get_messages-put_messages :
    (ms : List TransactionMessage) (xss : List Bytes)
    → put_messages ms ≡ some xss
    → get_messages (length ms) xss ≡ some ms
get_messages-put_messages [] xss h = refl
get_messages-put_messages (m ∷ ms) xss h =
    let (rest, e, p) = with_rest-some m (put_messages ms) xss h in
    rw (p, get_messages, get_messages-put_messages ms rest e) refl

abbrev block_lists : BlockMessage → Option (List Bytes)
block_lists m =
    let h = m.header in
    Option.map
      (λ xss.
        (h.version
          ∷ h.timestamp.seconds
          ∷ h.timestamp.nanoseconds
          ∷ h.difficulty
          ∷ h.nonce
          ∷ h.height
          ∷ m.tx_count
          ∷ length m.transactions
          ∷ [])
        ∷ h.prev_block_hash
        ∷ h.merkle_root
        ∷ h.extra_data
        ∷ m.block_hash
        ∷ xss)
      (put_messages m.transactions)

abbrev block_of_lists : List Bytes → Option BlockMessage
block_of_lists
      ((version ∷ seconds ∷ nanoseconds ∷ difficulty ∷ nonce ∷ height ∷ tx_count ∷ n ∷ [])
        ∷ prev
        ∷ root
        ∷ extra
        ∷ hash
        ∷ xss) =
    Option.map
      (λ ms. record {
        header = record {
          version = version;
          prev_block_hash = prev;
          merkle_root = root;
          timestamp = record { seconds = seconds; nanoseconds = nanoseconds };
          difficulty = difficulty;
          nonce = nonce;
          height = height;
          extra_data = extra;
        };
        transactions = ms;
        block_hash = hash;
        tx_count = tx_count;
      })
      (get_messages n xss)
block_of_lists _ = none

abbrev block_codec : Codec BlockMessage
block_codec = lists_codec block_lists block_of_lists

pub block_codec-IsLawful : IsLawful block_codec
block_codec-IsLawful = lists_codec-IsLawful block_lists block_of_lists (λ m xss h.
    let (rest, e, p) = map-some _ (put_messages m.transactions) xss h in
    rw (← p, get_messages-put_messages m.transactions rest e) refl)

abbrev bytes_codec : Codec Bytes
bytes_codec = record { serialize_to_array = λ m. some m; parse_from_array = λ bs. some bs }

abbrev times : List ℕ → Option TimestampMessage
times (s ∷ n ∷ []) = some (record { seconds = s; nanoseconds = n })
times _ = none

abbrev pub wire : Protobuf
wire = record {
  blocks = block_codec;
  transactions = transaction_codec;
  bytes = bytes_codec;
  texts = bytes_codec;
  timestamps = record {
    serialize_to_array = λ m. some (m.seconds ∷ m.nanoseconds ∷ []);
    parse_from_array = times;
  };
}
