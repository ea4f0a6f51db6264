-- ===== src/A2a/Server/Parts.antt =====
-- What of a message's parts reaches the agent (`toGoriMessage` of a2a/server.go).
use mathlib.Core.List.{Memᴰ}
use mathlib.Core.List.Memᴰ
use gori.Prelude.{
  true, All, is_empty, Result, ok, err, ℕ, String, ◌≡◌, ◌⊎◌, true, Option, none, some, List,
}
use gori.Message.{Content, text, image, audio}
use gori.Message as Neutral
use gori.A2a.{Message, FilePart, Part}

module _ (decode : String → Option (List ℕ)) where
  -- A file has bytes that decode, and they are in the content as an audio or image of its type.
  abbrev Holds : List Content → FilePart → Type 0
  Holds cs f =
      (raw : List ℕ) × (decode f.bytes ≡ some raw)
      × (Memᴰ (audio (record { media_type = f.mime_type; bytes = raw })) cs
          ⊎ Memᴰ (image (record { media_type = f.mime_type; bytes = raw; url = "" })) cs)

  -- A part without a file, or whose file has neither an address nor bytes, has its text there.
  abbrev HasText : List Content → String → Type 0
  HasText cs s = (is_empty s ≡ true) ⊎ Memᴰ (text (record { text = s })) cs

  abbrev Reaches : List Content → Option FilePart → String → Type 0
  Reaches cs none s = HasText cs s
  Reaches cs (some f) s =
      Holds cs f ⊎ ((is_empty f.uri ≡ true) × (is_empty f.bytes ≡ true) × HasText cs s)

  abbrev OnOk : {A : Type 0} → (A → Type 0) → Result A → Type 0
  OnOk P (ok a) = P a
  OnOk P (err e) = Unit

  abbrev Within : List Content → List Content → Type 0
  Within cs ds = (c : Content) → Memᴰ c cs → Memᴰ c ds

  abbrev pub AllReach : List Content → List Part → Type 0
  AllReach cs ps = All (λ p. Reaches cs p.file p.text) ps
