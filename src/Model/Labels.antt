-- ===== src/Model/Labels.antt =====
-- The labels of core/model/model.cpp: statusLabel, stateLabel, originLabel and priorityLabel.
use amule_remote_qt.Base.{ℕ, ◌%◌, if◌then◌else◌, ◌==◌, List, [], ◌∷◌, ltb, length}
use amule_remote_qt.Codes.Status
use amule_remote_qt.Ec.Bytes.{Text, text}
use amule_remote_qt.Model.Types.{Download, SourceClient, Server}
use amule_remote_qt.Model.Figures.{label_at}

unfoldable pub status_label : (Text → Text) → Download → Text
status_label tr d =
    if d.status == Status.ready
    then tr (text "Downloading")
    else if d.status == Status.empty
    then tr (text "Empty")
    else if d.status == Status.waiting_for_hash
    then tr (text "Waiting hash")
    else if d.status == Status.hashing
    then tr (text "Hashing")
    else if d.status == Status.error
    then tr (text "Error")
    else if d.status == Status.insufficient
    then tr (text "Insufficient")
    else if d.status == Status.paused
    then tr (text "Paused")
    else if d.status == Status.completing
    then tr (text "Completing")
    else if d.status == Status.complete
    then tr (text "Complete")
    else if d.status == Status.alloc
    then tr (text "Allocating")
    else tr (text "Unknown")

-- The number's label, translated, and another text where it has none.
abbrev pub named : (Text → Text) → Text → List Text → ℕ → Text
named tr other labels n = if ltb n (length labels) then tr (label_at [] n labels) else other

abbrev pub states : List Text
states =
    text "Downloading"
    ∷ (text "On Queue"
        ∷ (text "Connecting"
            ∷ (text "Requesting"
                ∷ (text "No needed parts"
                    ∷ (text "Connecting via server"
                        ∷ (text "Too many connections"
                            ∷ (text "Connecting via Kad" ∷ (text "Asked for download" ∷ []))))))))

unfoldable pub state_label : (Text → Text) → SourceClient → Text
state_label tr c = named tr (text "—") states (c.down_state % 256)

abbrev pub origins : List Text
origins =
    text "Local Server"
    ∷ (text "Remote Server"
        ∷ (text "Kad"
            ∷ (text "Source Exchange"
                ∷ (text "Passive"
                    ∷ (text "Link" ∷ (text "Source Seeds" ∷ (text "Search Result" ∷ [])))))))

unfoldable pub origin_label : (Text → Text) → SourceClient → Text
origin_label tr c = named tr (text "—") origins c.origin

abbrev pub priorities : List Text
priorities = text "Normal" ∷ (text "High" ∷ (text "Low" ∷ []))

unfoldable pub priority_label : (Text → Text) → Server → Text
priority_label tr s = named tr (text "?") priorities s.priority
