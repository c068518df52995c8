-- ===== src/Tests.antt =====
-- The theorems at concrete inputs.
mod AvpRuns
mod MsgRuns
mod TransportRuns
mod DynamicRuns
mod ContextRuns
mod PppoeRuns
mod KpppoedRuns
mod ConfigRuns
mod NetlinkRuns
