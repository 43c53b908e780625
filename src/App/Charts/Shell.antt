-- ===== src/App/Charts/Shell.antt =====
-- web/src/app/charts/ChartShell.tsx: a card that shows its chart or its table.
use vekst.Prelude.{
  ◌≡◌, ◌≢◌, ◌⊎◌, inl, inr, refl, codes, Option, none, some, Bool, true, false, not, ◌&&◌, ◌||◌,
  if◌then◌else◌,
}
use vekst.Prelude.Strings.{Text}

pub data View : Type 0 where
  chart table : View

-- What a card is rendered with: canRenderChart(), hasData and unavailableKey.
pub record Props : Type 0 where
  pub can_render : Bool
  pub has_data : Bool
  pub unavailable_key : Option Text

unfoldable pub drawable : Props → Bool
drawable p = p.can_render && p.has_data

-- useState(!drawable): the state of a card that is mounted.
unfoldable pub mounted : Props → Bool
unfolding drawable
mounted p = not (drawable p)

-- asTable || !drawable ? table : chart
unfoldable pub shown : Props → Bool → View
unfolding drawable
shown p as_table = if as_table || not (drawable p) then table else chart

-- The key of the button's text; without a chart there is no button.
unfoldable pub button : Props → Bool → Option Text
unfolding drawable
button p as_table =
    if drawable p
    then some (if as_table then codes "chart.view.chart" else codes "chart.view.table")
    else none

-- !hasData && unavailableKey
unfoldable pub reason : Props → Option Text
reason p = if p.has_data then none else p.unavailable_key

-- The message that offers a view.
abbrev offer : View → Text
offer chart = codes "chart.view.chart"
offer table = codes "chart.view.table"

abbrev IsShown : Props → Bool → Type 0
IsShown p as_table =
    (shown p (mounted p) ≡ (if p.can_render && p.has_data then chart else table))
    × (button p as_table ≡ (if drawable p then some (offer (shown p (not as_table))) else none))
    × ((drawable p ≡ false) ⊎ (shown p as_table ≢ shown p (not as_table)))
    × ((drawable p ≡ true) ⊎ (shown p as_table ≡ table))
    × ((reason p ≡ none) ⊎ (shown p as_table ≡ table))

IsShown-cases :
    (c h : Bool) (k : Option Text) (s : Bool)
    → IsShown (record { can_render = c; has_data = h; unavailable_key = k }) s
unfolding shown mounted button reason drawable
IsShown-cases true true k true = (refl, refl, inr (λ e. absurd (cc e)), inl refl, inl refl)
IsShown-cases true true k false = (refl, refl, inr (λ e. absurd (cc e)), inl refl, inl refl)
IsShown-cases true false k true = (refl, refl, inl refl, inr refl, inr refl)
IsShown-cases true false k false = (refl, refl, inl refl, inr refl, inr refl)
IsShown-cases false h k true = (refl, refl, inl refl, inr refl, inr refl)
IsShown-cases false h k false = (refl, refl, inl refl, inr refl, inr refl)

-- A card that is mounted shows the chart exactly if it can be rendered and there is something to draw.
-- There is a button exactly if the chart can be drawn, and its text names the view that a
-- click leads to, which is another one than is shown. A chart that cannot be drawn is not
-- shown, whatever was chosen before, and a reason is given only beside the table.
pub shown_lem :
    (p : Props) (as_table : Bool)
    → (shown p (mounted p) ≡ (if p.can_render && p.has_data then chart else table))
      × (button p as_table ≡ (if drawable p then some (offer (shown p (not as_table))) else none))
      × ((drawable p ≡ false) ⊎ (shown p as_table ≢ shown p (not as_table)))
      × ((drawable p ≡ true) ⊎ (shown p as_table ≡ table))
      × ((reason p ≡ none) ⊎ (shown p as_table ≡ table))
shown_lem p as_table = IsShown-cases p.can_render p.has_data p.unavailable_key as_table
