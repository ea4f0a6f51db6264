-- ===== src/Provider/Anthropic/Checked.antt =====
-- What `checkContent` of provider/anthropic/anthropic.go refuses.
use gori.Prelude.{
  All, String, ◌≡◌, refl, ◌↔◌, Bool, true, false, ◌||◌, Option, none, some, List, [], ◌∷◌,
}
use gori.Message.{
  Role, system, user, assistant, tool, other_role, Content, text, thinking, plan, image, audio,
  tool_use, tool_result, foreign, Message, first_non_text, check_role, system_text_only,
}
use gori.Provider.{Request}
use gori.Provider.Anthropic.{has_audio, any_audio, refused, check_content}

-- A block that no text message of the system may hold, and an audio block.
abbrev pub IsText : Content → Type 0
IsText (text t) = Unit
IsText _ = ⊥

abbrev pub IsSilent : Content → Type 0
IsSilent (audio a) = ⊥
IsSilent _ = Unit

-- The system speaks in texts only.
abbrev pub HoldsText : Role → List Content → Type 0
HoldsText system cs = All IsText cs
HoldsText _ cs = Unit

abbrev pub IsCarried : Message → Type 0
IsCarried m = HoldsText m.role m.content × All IsSilent m.content

has_audio_iff : (cs : List Content) → (has_audio cs ≡ false) ↔ All IsSilent cs
unfolding has_audio
has_audio_iff [] = (λ h. tt, λ h. refl)
has_audio_iff (audio a ∷ cs) = (λ h. cc, λ h. absurd h.0)
has_audio_iff (text t ∷ cs) = let (f, g) = has_audio_iff cs in (λ h. (tt, f h), λ h. g h.1)
has_audio_iff (thinking t ∷ cs) = let (f, g) = has_audio_iff cs in (λ h. (tt, f h), λ h. g h.1)
has_audio_iff (plan p ∷ cs) = let (f, g) = has_audio_iff cs in (λ h. (tt, f h), λ h. g h.1)
has_audio_iff (image i ∷ cs) = let (f, g) = has_audio_iff cs in (λ h. (tt, f h), λ h. g h.1)
has_audio_iff (tool_use u ∷ cs) = let (f, g) = has_audio_iff cs in (λ h. (tt, f h), λ h. g h.1)
has_audio_iff (tool_result r ∷ cs) = let (f, g) = has_audio_iff cs in (λ h. (tt, f h), λ h. g h.1)
has_audio_iff (foreign k ∷ cs) = let (f, g) = has_audio_iff cs in (λ h. (tt, f h), λ h. g h.1)

first_non_text_iff : (cs : List Content) → (first_non_text cs ≡ none) ↔ All IsText cs
unfolding first_non_text
first_non_text_iff [] = (λ h. tt, λ h. refl)
first_non_text_iff (text t ∷ cs) =
    let (f, g) = first_non_text_iff cs in (λ h. (tt, f h), λ h. g h.1)
first_non_text_iff (audio a ∷ cs) = (λ h. cc, λ h. absurd h.0)
first_non_text_iff (thinking t ∷ cs) = (λ h. cc, λ h. absurd h.0)
first_non_text_iff (plan p ∷ cs) = (λ h. cc, λ h. absurd h.0)
first_non_text_iff (image i ∷ cs) = (λ h. cc, λ h. absurd h.0)
first_non_text_iff (tool_use u ∷ cs) = (λ h. cc, λ h. absurd h.0)
first_non_text_iff (tool_result r ∷ cs) = (λ h. cc, λ h. absurd h.0)
first_non_text_iff (foreign k ∷ cs) = (λ h. cc, λ h. absurd h.0)

checked_role :
    (o rest : Option String) → (check_role system o rest ≡ none) ↔ ((o ≡ none) × (rest ≡ none))
unfolding check_role
checked_role none rest = (λ h. (refl, h), λ h. h.1)
checked_role (some k) rest = (λ h. cc, λ h. cc)

check_role_iff :
    (r : Role) (cs : List Content) (rest : Option String)
    → (check_role r (first_non_text cs) rest ≡ none) ↔ (HoldsText r cs × (rest ≡ none))
unfolding check_role
check_role_iff system cs rest =
    let (f, g) = first_non_text_iff cs in
    let (a, b) = checked_role (first_non_text cs) rest in
    (λ h. (f (a h).0, (a h).1), λ h. b (g h.0, h.1))
check_role_iff user cs rest = (λ h. (tt, h), λ h. h.1)
check_role_iff assistant cs rest = (λ h. (tt, h), λ h. h.1)
check_role_iff tool cs rest = (λ h. (tt, h), λ h. h.1)
check_role_iff (other_role s) cs rest = (λ h. (tt, h), λ h. h.1)

or_false_iff : (a b : Bool) → ((a || b) ≡ false) ↔ ((a ≡ false) × (b ≡ false))
or_false_iff true b = (λ h. cc, λ h. cc)
or_false_iff false b = (λ h. (refl, h), λ h. h.1)

checked_iff :
    (ms : List Message) → ((system_text_only ms ≡ none) × (any_audio ms ≡ false)) ↔ All IsCarried ms
unfolding system_text_only any_audio
checked_iff [] = (λ h. tt, λ h. (refl, refl))
checked_iff (m ∷ ms) =
    let (f, g) = checked_iff ms in
    let (f', g') = check_role_iff m.role m.content (system_text_only ms) in
    let (f'', g'') = has_audio_iff m.content in
    let (a, b) = or_false_iff (has_audio m.content) (any_audio ms) in
    (
      λ h. (((f' h.0).0, f'' (a h.1).0), f ((f' h.0).1, (a h.1).1)),
      λ h. (g' (h.0.0, (g h.1).0), b (g'' h.0.1, (g h.1).1)),
    )

refused_iff : (o : Option String) (b : Bool) → (refused o b ≡ none) ↔ ((o ≡ none) × (b ≡ false))
unfolding refused
refused_iff none true = (λ h. cc, λ h. cc)
refused_iff none false = (λ h. (refl, refl), λ h. refl)
refused_iff (some k) b = (λ h. cc, λ h. cc)

-- A request passes the check if and only if its system messages hold texts only and none of its
-- messages holds an audio block.
pub check_content_iff : (req : Request) → (check_content req ≡ none) ↔ All IsCarried req.messages
unfolding check_content
check_content_iff req =
    let (f, g) = refused_iff (system_text_only req.messages) (any_audio req.messages) in
    let (f', g') = checked_iff req.messages in (λ h. f' (f h), λ h. g (g' h))
