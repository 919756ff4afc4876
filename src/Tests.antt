-- ===== src/Tests.antt =====
-- Concrete runs, and the theorems at concrete inputs.
mod Fixtures
mod Valid
mod Runs
mod Registry
mod DomainCases
mod SummaryCases
mod PolicyCases
mod TextCases
mod PilotFixtures
mod StoreCases
mod ServiceCases
mod PilotCases
