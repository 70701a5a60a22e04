-- ===== src/Database/Seed/Data.antt =====
-- The orgs and the demo org's requests of db/src/seed.ts.
use frontdesk_intake.Prelude.{String, Bool, true, false, Option, none, some, List, [], ◌∷◌}
use frontdesk_intake.Database.Enums.{RequestStatus, RequestUrgency}

pub record OrgSeed : Type 0 where
  pub slug : String
  pub name : String
  pub is_demo : Bool

abbrev pub org_seeds : List OrgSeed
org_seeds =
    record { slug = "bright-smile-dental"; name = "Bright Smile Dental"; is_demo = true }
    ∷ record { slug = "harbor-legal"; name = "Harbor Legal"; is_demo = false }
    ∷ []

pub record DemoRequestSeed : Type 0 where
  pub tracking_token : String
  pub requester_name : Option String
  pub requester_email : Option String
  pub subject : String
  pub body : String
  pub status : RequestStatus
  pub category : String
  pub urgency : RequestUrgency
  pub summary : String
  pub draft_body : String
  pub approved : Bool

abbrev pub reschedule_cleaning : DemoRequestSeed
reschedule_cleaning = record {
  tracking_token = "seed-bsd-reschedule-cleaning";
  requester_name = some "Priya Natarajan";
  requester_email = some "priya.natarajan@example.com";
  subject = "Need to reschedule my cleaning";
  body =
      "Hi, I have a cleaning booked for this Thursday at 2pm but I have a work conflict. Could I move it to next week sometime in the afternoon?";
  status = RequestStatus.approved;
  category = "scheduling";
  urgency = RequestUrgency.low;
  summary = "Patient requests to reschedule an upcoming cleaning appointment.";
  draft_body =
      "Thanks for letting us know! We'd be happy to move your cleaning to next week. Please give the front desk a call or reply here with a couple of afternoon times that work for you and we'll get you booked in.";
  approved = true;
}

abbrev pub delta_dental_coverage : DemoRequestSeed
delta_dental_coverage = record {
  tracking_token = "seed-bsd-delta-dental-coverage";
  requester_name = some "Marcus Webb";
  requester_email = some "marcus.webb@example.com";
  subject = "Do you take Delta Dental?";
  body =
      "I just got new insurance through my job, Delta Dental PPO. Are you in-network with that plan? I'm due for a cleaning.";
  status = RequestStatus.approved;
  category = "insurance";
  urgency = RequestUrgency.normal;
  summary = "Prospective/existing patient asks whether Delta Dental PPO is in-network.";
  draft_body =
      "Great news — we're in-network with Delta Dental PPO! Bring your insurance card to your visit and we'll verify your specific benefits and get you an estimate before any treatment.";
  approved = true;
}

abbrev pub filling_cost_no_insurance : DemoRequestSeed
filling_cost_no_insurance = record {
  tracking_token = "seed-bsd-filling-cost-no-insurance";
  requester_name = none;
  requester_email = none;
  subject = "Cost of a filling without insurance";
  body =
      "How much would a regular cavity filling cost if I don't have dental insurance? Just trying to budget ahead of time.";
  status = RequestStatus.approved;
  category = "billing";
  urgency = RequestUrgency.normal;
  summary = "Anonymous inquiry about the self-pay cost of a single filling.";
  draft_body =
      "Happy to help you budget! Without insurance, a single-surface composite filling is typically in the $180–$240 range before our 15% courtesy discount for payment in full at the time of service. The exact price depends on the tooth and how many surfaces are involved, which we can confirm at an exam.";
  approved = true;
}

abbrev pub toothache_emergency : DemoRequestSeed
toothache_emergency = record {
  tracking_token = "seed-bsd-toothache-emergency";
  requester_name = some "Dana Ferreira";
  requester_email = some "dana.ferreira@example.com";
  subject = "Bad toothache, not sure if this is an emergency";
  body =
      "I've had a throbbing pain in my lower left molar since last night and it's getting worse. No swelling that I can see. Is this something I need to be seen for today?";
  status = RequestStatus.drafted;
  category = "clinical-question";
  urgency = RequestUrgency.high;
  summary = "Patient reports worsening tooth pain, asking whether same-day care is needed.";
  draft_body =
      "A worsening, throbbing toothache can indicate an infection and is worth same-day attention even without visible swelling. Please call the office line as soon as you can so we can fit you in today; if swelling, fever, or difficulty swallowing develops before then, that's a sign to seek urgent or emergency care right away.";
  approved = false;
}

abbrev pub holiday_hours : DemoRequestSeed
holiday_hours = record {
  tracking_token = "seed-bsd-holiday-hours";
  requester_name = some "Tom Okafor";
  requester_email = some "tom.okafor@example.com";
  subject = "Are you open the day after Thanksgiving?";
  body =
      "Planning some time off and want to know if the office is open the Friday after Thanksgiving in case I need to squeeze in an appointment.";
  status = RequestStatus.approved;
  category = "other";
  urgency = RequestUrgency.low;
  summary = "Patient asks about holiday hours around Thanksgiving.";
  draft_body =
      "We're closed both Thanksgiving Day and the day after this year, so the Friday won't work I'm afraid — but we'd be glad to find you a spot the week before or the following week if that helps with your plans!";
  approved = true;
}

abbrev pub xray_copies : DemoRequestSeed
xray_copies = record {
  tracking_token = "seed-bsd-xray-copies";
  requester_name = some "Lena Kowalski";
  requester_email = some "lena.kowalski@example.com";
  subject = "Can I get a copy of my X-rays?";
  body =
      "I'm switching to a dentist closer to my new place and need copies of my most recent X-rays sent over. What's the process for that?";
  status = RequestStatus.drafted;
  category = "other";
  urgency = RequestUrgency.low;
  summary = "Patient requests a copy of their X-rays be sent to a new dentist.";
  draft_body =
      "Of course! Send us the name and fax or email of your new dentist's office and a signed records-release request (we can email you the form), and we'll get your X-rays and a summary of your records over to them within a few business days.";
  approved = false;
}

abbrev pub demo_requests : List DemoRequestSeed
demo_requests =
    reschedule_cleaning ∷ delta_dental_coverage ∷ filling_cost_no_insurance ∷ toothache_emergency
    ∷ holiday_hours ∷ xray_copies ∷ []
