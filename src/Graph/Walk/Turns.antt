-- ===== src/Graph/Walk/Turns.antt =====
-- Histories of whole turns, and their ends.
use mathlib.Core.Path.{subst}
use enterprise_support_agent.Base.{
  ℕ, zero, suc, ◌+◌, ◌-◌, List, [], ◌∷◌, ◌++◌, ◌≡◌, arith, length, drop, take_last, min, take,
  take-drop, length-drop,
}
use enterprise_support_agent.Graph.State.{ConversationMessage, user, assistant}

-- Whole turns: a user's message, and the assistant's answer to it.
abbrev pub IsTurns : List ConversationMessage → Type 0
IsTurns [] = Unit
IsTurns (m ∷ []) = ⊥
IsTurns (m ∷ a ∷ rest) = (m.role ≡ user) × (a.role ≡ assistant) × IsTurns rest

pub IsTurns-append : (h t : List ConversationMessage) → IsTurns h → IsTurns t → IsTurns (h ++ t)
IsTurns-append [] t hh ht = ht
IsTurns-append (m ∷ []) t hh ht = absurd hh
IsTurns-append (m ∷ a ∷ h) t hh ht = (hh.0, hh.1, IsTurns-append h t hh.2 ht)

-- The number of turns.
abbrev turns : List ConversationMessage → ℕ
turns [] = 0
turns (m ∷ []) = 0
turns (m ∷ a ∷ h) = suc (turns h)

length-IsTurns : (h : List ConversationMessage) → IsTurns h → length h ≡ turns h + turns h
length-IsTurns [] hh = omega arith
length-IsTurns (m ∷ []) hh = absurd hh
length-IsTurns (m ∷ a ∷ h) hh = omega (arith, length-IsTurns h hh.2)

IsTurns-drop : (k : ℕ) (h : List ConversationMessage) → IsTurns h → IsTurns (drop (k + k) h)
IsTurns-drop zero h hh = hh
IsTurns-drop (suc k) [] hh = let e : suc k + suc k ≡ suc (suc (k + k)) = omega arith in rw e tt
IsTurns-drop (suc k) (m ∷ []) hh = absurd hh
IsTurns-drop (suc k) (m ∷ a ∷ h) hh =
    let e : suc k + suc k ≡ suc (suc (k + k)) = omega arith in rw e (IsTurns-drop k h hh.2)

pub IsTurns-take_last :
    (m : ℕ) (h : List ConversationMessage) → IsTurns h → IsTurns (take_last (m + m) h)
IsTurns-take_last m h hh =
    subst (λ n. IsTurns (drop n h)) (omega (arith, length-IsTurns h hh))
      (IsTurns-drop (turns h - m) h hh)

-- `kept` is the end of the messages: of them all, or of the last `n`.
pub record IsEnd (n : ℕ) (messages kept : List ConversationMessage) : Type 0 where
  pub dropped : List ConversationMessage
  pub split : dropped ++ kept ≡ messages
  pub size : length kept ≡ min n (length messages)

pub take_last-IsEnd :
    (n : ℕ) (messages : List ConversationMessage) → IsEnd n messages (take_last n messages)
take_last-IsEnd n messages = record {
  dropped = take (length messages - n) messages;
  split = take-drop (length messages - n) messages;
  size = omega (arith, length-drop (length messages - n) messages);
}
